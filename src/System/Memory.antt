-- ===== src/System/Memory.antt =====
-- src/system/Mem.c. The text of `errno` in an exception is left out.
use libzdb.Prelude.{
  ◌&&◌, Option, some, none, Result, ok, err, assert_exception, memory_exception, if◌then◌else◌,
}
use libzdb.Prelude.Int.{ℤ, pos, ltb_ℤ}

-- libc's functions for blocks of memory.
pub record Libc : Type 1 where
  pub World : Type 0
  pub Block : Type 0
  pub malloc : ℤ → World → Option Block × World
  pub calloc : ℤ → ℤ → World → Option Block × World
  pub realloc : Block → ℤ → World → Option Block × World
  pub free : Block → World → World

module _ (c : Libc) where
  -- A block, or an exception where there is none.
  abbrev or_throw : Option c.Block × c.World → Result c.Block × c.World
  or_throw (none, w) = (err memory_exception, w)
  or_throw (some p, w) = (ok p, w)

  pub alloc : ℤ → c.World → Result c.Block × c.World
  alloc size w =
      if ltb_ℤ (pos 0) size then or_throw (c.malloc size w) else (err assert_exception, w)

  pub calloc : ℤ → ℤ → c.World → Result c.Block × c.World
  calloc count size w =
      if ltb_ℤ (pos 0) count && ltb_ℤ (pos 0) size
      then or_throw (c.calloc count size w)
      else (err assert_exception, w)

  pub free : Option c.Block → c.World → c.World
  free none w = w
  free (some p) w = c.free p w

  pub resize : Option c.Block → ℤ → c.World → Result c.Block × c.World
  resize none size w = (err assert_exception, w)
  resize (some p) size w =
      if ltb_ℤ (pos 0) size then or_throw (c.realloc p size w) else (err assert_exception, w)
