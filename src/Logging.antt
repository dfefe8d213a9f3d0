-- ===== src/Logging.antt =====
-- The directory logging: number formatting, the line buffer, the logger and the rolling log file.
pub mod Convert
pub mod Stream
pub mod Logger
