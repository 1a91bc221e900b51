-- ===== src/Config.antt =====
-- lib/config/config.go: the configuration file of the client. Lines has the reading of a line,
-- Sections the kinds of sections, Titles the cutting of a file, and NewConfig the whole.
pub mod Lines
pub mod Sections
pub mod Titles
pub mod NewConfig
