-- ===== src/Types.antt =====
-- Package types (types/*.go).
pub mod Id
