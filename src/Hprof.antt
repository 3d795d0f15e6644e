-- ===== src/Hprof.antt =====
-- heapdump/hprofx/hprof.go: the reader of Java heap dumps, its roots and its class dumps.
pub mod Reader
pub mod Moves
pub mod Root
pub mod Classes
pub mod Layout
pub mod Header
pub mod Skips
pub mod Opens
pub mod Names
pub mod LoadMeta
pub mod Layouts
