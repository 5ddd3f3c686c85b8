-- ===== src/Config.antt =====
-- src/vshift/domain/config: which profile a file gets.
pub mod Glob
pub mod Criteria
pub mod Matcher
pub mod Settings
