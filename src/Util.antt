-- ===== src/Util.antt =====
-- The utilities of util/ that stand alone.
pub mod Base64
