-- ===== src/Cli.antt =====
-- crates/cli: what the commands read from their arguments.
pub mod Parse
mod Tests
