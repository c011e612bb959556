-- ===== src/Vt100.antt =====
-- lib/cli/cli_vt100.c and lib/cli/cli_input.c: the keys of the command line.
pub mod Line
pub mod Zipper
pub mod Ends
pub mod Session
pub mod Parse
pub mod Lookup
pub mod Steps
pub mod Keys
pub mod Bounds
pub mod Recall
mod Tests
