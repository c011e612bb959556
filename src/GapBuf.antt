-- ===== src/GapBuf.antt =====
-- lib/cli/cli_gapbuf.h and lib/cli/cli_gapbuf.c: the gap buffer that holds the command line.
pub mod State
pub mod Ops
pub mod View
pub mod Move
pub mod Edit
pub mod Point
pub mod Left
pub mod Copy
pub mod Seek
mod Tests
