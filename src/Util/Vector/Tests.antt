-- ===== src/Util/Vector/Tests.antt =====
-- The theorems about vectors, at a vector of numbers of which two of three cells are in use.
use libzdb.Prelude.{ℕ, ◌+◌, ◌*◌, ◌/◌, ◌≡◌, refl, [], ◌∷◌, arith, ok, ◌==◌}
use libzdb.Prelude.Int.{pos}
use libzdb.Util.Vector.{Machine, IsRounded, Vector, insert, remove, index_of}
use libzdb.Util.Vector.Refinement.{IsValid, contents, insert-contents}
use libzdb.Util.Vector.Elements.{remove-contents}
use libzdb.Util.Vector.Search.{IsFirst, index_of-IsFirst}

abbrev machine : Machine ℕ
machine = record { golden = λ n. (1618 * n + 500) / 1000; junk = 9; null = 0 }

rounded : IsRounded machine
rounded n = omega arith

abbrev two : Vector ℕ
two = record { length = 2; capacity = 3; array = 5 ∷ 6 ∷ 0 ∷ []; timestamp = 4294967295 }

two-IsValid : IsValid two
two-IsValid = record { cells = refl; fits = omega arith; some_room = omega arith }

insert-contents_example :
    (W : Vector ℕ) × (insert machine (pos 1) 7 two ≡ ok W)
    × IsValid W
    × (contents W ≡ 5 ∷ 7 ∷ 6 ∷ [])
insert-contents_example = insert-contents machine rounded 1 7 two two-IsValid (omega arith)

remove-contents_example :
    (W : Vector ℕ) × (remove machine (pos 0) two ≡ ok (5, W)) × IsValid W × (contents W ≡ 6 ∷ [])
remove-contents_example = remove-contents machine 0 two two-IsValid (omega arith)

index_of-IsFirst_example : IsFirst machine ◌==◌ 6 two 0 (index_of machine ◌==◌ 6 two)
index_of-IsFirst_example = index_of-IsFirst machine ◌==◌ 6 two
