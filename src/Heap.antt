-- ===== src/Heap.antt =====
-- heapdump/hprofx/graph.go and dom.go: the object graph of a Java heap dump and its dominators.
pub mod Csr
pub mod Graph
pub mod Walk
pub mod Dominators
pub mod Objects
pub mod Roots
pub mod Lookup
pub mod Passes
pub mod Edges
pub mod Inspect
