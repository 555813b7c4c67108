-- ===== src/Prelude/Outcome.antt =====
-- The outcome of a C function that may throw: src/exceptions/Exception.h, and the two macros that
-- throw, `THROW` and the `assert` of src/exceptions/assert.h.
use Prim.Native.Nat.{ℕ}
use mathlib.Core.Bool.{Bool, true, false}
use mathlib.Core.List.{List}

-- A C string: its bytes up to the terminating zero.
abbrev pub Text : Type 0
Text = List ℕ

pub data Exception : Type 0 where
  assert_exception : Exception
  memory_exception : Exception
  sql_exception : Text → Exception

pub data Result {ℓ} (A : Type ℓ) : Type ℓ where
  ok : A → Result A
  err : Exception → Result A

-- What throws skips the rest.
infixl 5 ◌>>=◌
abbrev pub ◌>>=◌ {ℓ κ} : {A : Type ℓ} {B : Type κ} → Result A → (A → Result B) → Result B
r >>= rest = elim r [ ok a ↦ rest a | err e ↦ err e ]

-- `assert(e)`, which throws AssertException where `e` is false.
abbrev pub assert : Bool → Result (Unit {0})
assert true = ok tt
assert false = err assert_exception
