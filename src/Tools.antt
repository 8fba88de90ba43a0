-- ===== src/Tools.antt =====
-- tools: the packages for the project's own tests.
pub mod Pool
