-- ===== src/Tests.antt =====
-- The theorems at concrete inputs, on which the definitions run.
mod Codec
mod Sample
mod Queue
mod Leases
mod Cases
mod Files
mod Requests
mod Dumps
mod Stores
mod Graphs
mod Objects
