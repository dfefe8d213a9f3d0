-- ===== src/Thread.antt =====
-- The concurrent containers and locks of thread/.
pub mod Mutex
pub mod Lookup
pub mod Plain
pub mod Values
pub mod Counter
pub mod Holder
pub mod Queue
pub mod Start
pub mod Pool
