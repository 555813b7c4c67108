-- ===== src/Util/StringBuffer/Tests.antt =====
-- The theorems about string buffers, at a buffer of six cells that holds a?.
use libzdb.Prelude.{ℕ, zero, suc, ◌<◌, ◌≤◌, replicate, ◌≡◌, refl, [], ◌∷◌, ◌++◌, arith, some, Text}
use libzdb.Util.Str.{lit}
use libzdb.Util.StringBuffer.{StringBuffer, append, prepare, questions}
use libzdb.Util.StringBuffer.Holding.{Holds, NoZero}
use libzdb.Util.StringBuffer.Appending.{append-Holds}
use libzdb.Util.StringBuffer.Preparing.{Prepares, prepare-numbered}

abbrev small : StringBuffer
small = record { used = 2; length = 6; buffer = 97 ∷ 63 ∷ 0 ∷ 9 ∷ 9 ∷ 9 ∷ [] }

small-Holds : Holds small (97 ∷ 63 ∷ [])
small-Holds = record {
  slack = 9 ∷ 9 ∷ 9 ∷ [];
  begins = record { cells = refl; used_length = refl; length_cells = refl };
  no_zero = (λ e. omega arith, (λ e. omega arith, tt));
}

append-Holds_example :
    (Q : StringBuffer) × (append 0 (some (lit "%s")) (98 ∷ []) small ≡ some Q)
    × Holds Q (97 ∷ 63 ∷ 98 ∷ [])
append-Holds_example =
    append-Holds 0 (some (lit "%s")) (97 ∷ 63 ∷ []) (98 ∷ []) small small-Holds
      (λ e. omega arith, tt)

few : questions (97 ∷ 63 ∷ []) ≤ 99
unfolding questions
few = omega arith

prepare-numbered_example : Prepares 36 (97 ∷ 63 ∷ []) (prepare 0 36 small)
prepare-numbered_example =
    prepare-numbered 0 36 small (97 ∷ 63 ∷ []) small-Holds (λ e. omega arith) few

-- A hundred question marks.
abbrev marks : Text
marks = replicate 100 63

abbrev large : StringBuffer
large = record { used = 100; length = 101; buffer = marks ++ 0 ∷ [] }

NoZero-replicate : (n : ℕ) → NoZero (replicate n 63)
NoZero-replicate zero = tt
NoZero-replicate (suc n) = (λ e. omega arith, NoZero-replicate n)

large-Holds : Holds large marks
large-Holds = record {
  slack = [];
  begins = record { cells = refl; used_length = refl; length_cells = refl };
  no_zero = NoZero-replicate 100;
}

many : 99 < questions marks
unfolding questions
many = omega arith
