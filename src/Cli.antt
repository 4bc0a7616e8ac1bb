-- ===== src/Cli.antt =====
-- internal/cli, and cmd/ghostgpu/main.go: the command line tool.
pub mod Names
pub mod Objects
pub mod Up
pub mod Status
pub mod Capture
pub mod Apply
pub mod Command
