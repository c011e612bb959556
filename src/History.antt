-- ===== src/History.antt =====
-- lib/cli/cli_history.c: the lines that the command line keeps.
pub mod State
pub mod Ops
pub mod Add
pub mod Positions
pub mod Browse
pub mod Resize
pub mod Alias
mod Tests
