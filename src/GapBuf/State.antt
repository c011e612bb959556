-- ===== src/GapBuf/State.antt =====
-- struct gapbuf of lib/cli/cli_gapbuf.h, its memory and the functions that read its pointers.
use pktgen_dpdk.Base.{
  ℕ, ◌+◌, ◌-◌, Bool, true, false, ◌&&◌, Option, none, some, leb, ltb, ◌==◌, if◌then◌else◌, u32,
}

-- The pointers are offsets from `buf`. `mem` holds the bytes behind `buf`, of which `alloc` belong to
-- the allocation; the others are arbitrary and stand for what a larger allocation would hold.
pub record GapBuf : Type 0 where
  pub mem : ℕ → ℕ
  pub alloc : ℕ
  pub ebuf : ℕ
  pub point : ℕ
  pub gap : ℕ
  pub egap : ℕ

-- `*(buf + i) = c`
unfoldable pub store : (ℕ → ℕ) → ℕ → ℕ → ℕ → ℕ
store mem i c j = if j == i then c else mem j

-- `memmove(buf + dst, buf + src, n)`: the source is read before anything is written.
unfoldable pub memmove : (ℕ → ℕ) → ℕ → ℕ → ℕ → ℕ → ℕ
memmove mem dst src n j = if leb dst j && ltb j (dst + n) then mem (src + (j - dst)) else mem j

-- Under `gap ≤ egap ≤ ebuf` the differences of pointers are not negative.
unfoldable pub gb_buf_size : GapBuf → ℕ
gb_buf_size gb = u32 gb.ebuf

unfoldable pub gb_gap_size : GapBuf → ℕ
gb_gap_size gb = u32 (gb.egap - gb.gap)

unfoldable pub gb_data_size : GapBuf → ℕ
gb_data_size gb = u32 (gb.ebuf - (gb.egap - gb.gap))

unfoldable pub gb_point_at_start : GapBuf → Bool
gb_point_at_start gb = gb.point == 0

unfoldable pub gb_point_at_end : GapBuf → Bool
gb_point_at_end gb = gb.ebuf == gb.point

unfoldable pub gb_point_at_gap : GapBuf → Bool
gb_point_at_gap gb = gb.gap == gb.point

-- The index -1 is `none`.
unfoldable pub gb_set_point : GapBuf → Option ℕ → GapBuf
gb_set_point gb none = record gb { point = gb.ebuf }
gb_set_point gb (some idx) = record gb {
  point = if ltb gb.gap idx then idx + (gb.egap - gb.gap) else idx;
}

unfoldable pub gb_point_offset : GapBuf → ℕ
gb_point_offset gb = if ltb gb.egap gb.point then gb.point - (gb.egap - gb.gap) else gb.point

unfoldable pub gb_eof : GapBuf → Bool
gb_eof gb = if gb.point == gb.gap then gb.egap == gb.ebuf else gb.point == gb.ebuf

unfoldable pub gb_left_data_size : GapBuf → ℕ
gb_left_data_size gb = u32 gb.gap

unfoldable pub gb_right_data_size : GapBuf → ℕ
unfolding gb_eof
gb_right_data_size gb = if gb_eof gb then 0 else u32 (gb.ebuf - gb.egap)

-- gb_init_buf and gb_reset_buf of lib/cli/cli_gapbuf.c. Blanks fill the buffer.
unfoldable pub gb_reset_buf : GapBuf → GapBuf
gb_reset_buf gb = record gb {
  mem = λ j. if ltb j gb.ebuf then 32 else gb.mem j;
  point = 0;
  gap = 0;
  egap = gb.ebuf;
  ebuf = gb.ebuf;
}

-- `got` is whether calloc found memory; without it only `buf` has changed, to NULL.
unfoldable pub gb_init_buf : GapBuf → (size : ℕ) → (got : Bool) → Option GapBuf
unfolding gb_reset_buf
gb_init_buf gb size false = none
gb_init_buf gb size true =
    some (gb_reset_buf (record gb { mem = λ j. 0; alloc = size; ebuf = size }))
