-- ===== src/Logging.antt =====
-- The loggers: the default one (logging/log.go), and the one with a file that grows up to a size
-- (logger/log.go).
pub mod Level
pub mod LogFile
pub mod Rotation
pub mod Tests
