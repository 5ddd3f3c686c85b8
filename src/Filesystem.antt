-- ===== src/Filesystem.antt =====
-- src/vshift/infrastructure/filesystem: the scanner of the input folder (Scanner), and the loader
-- and the repository of the YAML configuration (Configuration).
pub mod Scanner
pub mod Configuration
