-- ===== src/Env.antt =====
-- lib/cli/cli_env.c: the variables of the command line and their substitution.
pub mod State
pub mod Vars
pub mod Remove
pub mod Refine
pub mod Expand
pub mod Plain
pub mod Substitute
mod Tests
