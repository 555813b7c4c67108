-- ===== src/Prelude/Tables.antt =====
-- Texts of bytes, and tables over the bytes.
use Prim.Native.Nat.{ℕ, zero, suc, ◌<◌}
use mathlib.Core.Path.{◌≡◌}
use mathlib.Core.Logic.{inl, inr}
use mathlib.Core.Bool.{Bool, true, ◌&&◌}
use mathlib.Core.List.{[], ◌∷◌}
use native.Mathlib.Omega.{arith}
use libzdb.Prelude.Tests.{◌==◌, Bool-cases}
use libzdb.Prelude.Outcome.{Text}

abbrev pub AllBytes : Text → Type 0
AllBytes [] = Unit {0}
AllBytes (c ∷ s) = (c < 256) × AllBytes s

-- Tables over the bytes are decided by running the test on each.
unfoldable pub holds_under : (ℕ → Bool) → ℕ → Bool
holds_under test zero = true
holds_under test (suc bound) = holds_under test bound && test bound

pub holds_under_at :
    (test : ℕ → Bool) (bound c : ℕ) → c < bound → holds_under test bound ≡ true → test c ≡ true
unfolding holds_under
holds_under_at test zero c below all = absurd (omega arith)
holds_under_at test (suc bound) c below all = elim (Bool-cases (c == bound)) [
  | inl last ↦ let e : c ≡ bound = ground arith in rw e (ground arith)
  | inr earlier ↦ holds_under_at test bound c (ground arith) (ground arith)
]
