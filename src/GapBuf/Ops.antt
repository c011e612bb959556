-- ===== src/GapBuf/Ops.antt =====
-- The functions of lib/cli/cli_gapbuf.h that move the point, the gap, or change the text.
-- A failed realloc ends the program, so growing is taken to succeed.
use pktgen_dpdk.Base.{
  ℕ, ◌+◌, ◌-◌, List, [], ◌∷◌, ltb, ◌==◌, if◌then◌else◌, u32, length, Option, none, some,
}
use pktgen_dpdk.GapBuf.State.{GapBuf, store, memmove, gb_buf_size, gb_gap_size}

-- GB_DEFAULT_GAP_SIZE
abbrev pub gb_default_gap_size : ℕ
gb_default_gap_size = 8

unfoldable pub gb_move_gap_to_point : GapBuf → GapBuf
gb_move_gap_to_point gb =
    if point == gap
    then gb
    else if point == egap
    then record gb { point = gap }
    else if ltb point gap
    then record gb {
      mem = memmove mem (egap - (gap - point)) point (gap - point);
      egap = egap - (gap - point);
      gap = point;
    }
    else if ltb egap point
    then record gb {
      mem = memmove mem gap egap (point - egap);
      gap = gap + (point - egap);
      egap = point;
      point = gap + (point - egap);
    }
    else record gb {
      mem = memmove mem gap egap (point - gap);
      egap = egap + (point - gap);
      gap = gap + (point - gap);
      point = gap + (point - gap);
    }
  where
    open gb use {mem, point, gap, egap}

-- realloc keeps the bytes, and the pointers keep their offsets.
unfoldable pub gb_expand_buf : GapBuf → ℕ → GapBuf
unfolding gb_buf_size
gb_expand_buf gb more =
    if ltb (gb_buf_size gb) (gb.ebuf + more)
    then record gb { alloc = u32 (gb.ebuf + more + gb_default_gap_size) }
    else gb

unfoldable pub gb_expand_gap : GapBuf → ℕ → GapBuf
unfolding gb_gap_size gb_expand_buf
gb_expand_gap gb size =
    let size' = u32 (size + gb_default_gap_size) in
    let gb' = gb_expand_buf gb size' in
    if ltb (gb_gap_size gb) size
    then record gb' {
      mem = memmove gb'.mem (gb'.egap + size') gb'.egap (gb'.ebuf - gb'.egap);
      egap = gb'.egap + size';
      ebuf = gb'.ebuf + size';
    }
    else gb

-- `if (point == gap) point = egap;`
abbrev over_gap : GapBuf → GapBuf
over_gap gb = record gb { point = if gb.point == gb.gap then gb.egap else gb.point }

-- `if (point == egap) point = gap;`
abbrev before_gap : GapBuf → GapBuf
before_gap gb = record gb { point = if gb.point == gb.egap then gb.gap else gb.point }

unfoldable pub gb_get : GapBuf → GapBuf × ℕ
gb_get gb = let gb' = over_gap gb in (gb', gb'.mem gb'.point)

-- At the start of the buffer the byte before the point is 0 if the gap stands there.
unfoldable pub gb_get_prev : GapBuf → GapBuf × ℕ
gb_get_prev gb =
    let gb' = before_gap gb in
    (
      gb',
      if gb'.point == 0
          then if gb'.point == gb'.gap then 0 else gb'.mem gb'.point
          else gb'.mem (gb'.point - 1),
    )

unfoldable pub gb_get_next : GapBuf → GapBuf × ℕ
gb_get_next gb =
    let gb' = over_gap gb in
    (gb', if gb'.point == gb'.ebuf then gb'.mem gb'.point else gb'.mem (gb'.point + 1))

unfoldable pub gb_put : GapBuf → ℕ → GapBuf
gb_put gb c =
    let gb1 = over_gap gb in
    let grown = gb_expand_buf gb1 1 in
    let gb2 = if gb1.point == gb1.ebuf then record grown { ebuf = grown.ebuf + 1 } else gb1 in
    record gb2 { mem = store gb2.mem gb2.point c }

unfoldable pub gb_getc : GapBuf → GapBuf × ℕ
gb_getc gb =
    if gb.point == gb.gap
    then (record gb { point = gb.egap + 1 }, gb.mem gb.egap)
    else (record gb { point = gb.point + 1 }, gb.mem gb.point)

-- At the start the code moves the point below `buf` and reads there: `none`.
unfoldable pub gb_getc_prev : GapBuf → Option (GapBuf × ℕ)
gb_getc_prev gb =
    let gb' = before_gap gb in
    if gb'.point == 0
    then none
    else some (record gb' { point = gb'.point - 1 }, gb'.mem (gb'.point - 1))

unfoldable pub gb_putc : GapBuf → ℕ → GapBuf
gb_putc gb c =
    let gb1 = gb_move_gap_to_point gb in
    let grown = gb_expand_buf gb1 1 in
    let gb2 = if gb1.point == gb1.ebuf then record grown { ebuf = grown.ebuf + 1 } else gb1 in
    record gb2 { mem = store gb2.mem gb2.gap c; gap = gb2.gap + 1; point = gb2.point + 1 }

unfoldable pub gb_insert : GapBuf → ℕ → GapBuf
gb_insert gb c =
    let gb1 = if gb.point == gb.gap then gb else gb_move_gap_to_point gb in
    let gb2 = if gb1.gap == gb1.egap then gb_expand_gap gb1 1 else gb1 in gb_putc gb2 c

unfoldable pub gb_del : GapBuf → ℕ → GapBuf
gb_del gb cnt =
    let gb' = if gb.point == gb.gap then gb else gb_move_gap_to_point gb in
    record gb' { egap = gb'.egap + cnt }

unfoldable pub gb_put_all : GapBuf → List ℕ → GapBuf
gb_put_all gb [] = gb
gb_put_all gb (c ∷ str) = gb_put_all (gb_putc gb c) str

-- `str` holds the `size` bytes that are inserted: all of a text when the caller passes 0.
unfoldable pub gb_str_insert : GapBuf → List ℕ → GapBuf × ℕ
gb_str_insert gb [] = (gb, 0)
gb_str_insert gb (c ∷ str) =
    let size = length (c ∷ str) in
    let gb1 = gb_move_gap_to_point gb in
    let gb2 = if ltb (gb_gap_size gb1) size then gb_expand_gap gb1 size else gb1 in
    (gb_put_all gb2 (c ∷ str), size)

unfoldable pub gb_move_right : GapBuf → GapBuf
gb_move_right gb =
    let gb' = over_gap gb in
    record gb' { point = if ltb gb'.ebuf (gb'.point + 1) then gb'.ebuf else gb'.point + 1 }

-- `point - 1 < buf` holds only at the start.
unfoldable pub gb_move_left : GapBuf → GapBuf
gb_move_left gb =
    let gb' = before_gap gb in record gb' { point = if gb'.point == 0 then 0 else gb'.point - 1 }
