-- ===== src/Config.antt =====
-- internal/config/config.go: the startup configuration, from the command line, the environment and
-- the built-in defaults.
pub mod Address
pub mod CommandLine
pub mod Grammar
pub mod Environment
pub mod Laws
pub mod Precedence
