-- ===== src/Hil.antt =====
-- The host interface layer: hil/ of the source, and the requests of util/def.hh that it makes.
pub mod Request
pub mod Fcfs
pub mod Credit
