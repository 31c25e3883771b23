-- ===== src/Icl.antt =====
-- The internal cache layer: icl/ of the source.
pub mod Cache
