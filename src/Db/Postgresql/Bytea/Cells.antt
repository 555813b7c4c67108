-- ===== src/Db/Postgresql/Bytea/Cells.antt =====
-- A value that is rewritten in place: the cells before one position are done, and those from another position
-- on are as they were.
use libzdb.Prelude.{
  ℕ, zero, suc, ◌≤◌, ◌<◌, ◌≡◌, refl, ap, ◌∙◌, Option, some, List, [], ◌∷◌, ◌++◌, arith, Text,
  length, take, drop, set, get_or, take-set_end, length-drop,
}
use libzdb.Db.Postgresql.Bytea.{Cursor, cell, rounds}

take-set_from : (n i : ℕ) (xs : List ℕ) (v : ℕ) → n ≤ i → take n (set xs i v) ≡ take n xs
take-set_from zero i xs v h = refl
take-set_from (suc n) i [] v h = refl
take-set_from (suc n) zero (x ∷ xs) v h = absurd (omega arith)
take-set_from (suc n) (suc i) (x ∷ xs) v h = ap (◌∷◌ x) (take-set_from n i xs v (omega arith))

drop-set_before : (n i : ℕ) (xs : List ℕ) (v : ℕ) → i < n → drop n (set xs i v) ≡ drop n xs
drop-set_before zero i xs v h = absurd (omega arith)
drop-set_before (suc n) i [] v h = refl
drop-set_before (suc n) zero (x ∷ xs) v h = refl
drop-set_before (suc n) (suc i) (x ∷ xs) v h = drop-set_before n i xs v (omega arith)

pub get_or-set_self : (i : ℕ) (xs : List ℕ) (v : ℕ) → v ≡ 0 → get_or (set xs i v) i 0 ≡ 0
get_or-set_self i [] v e = refl
get_or-set_self zero (x ∷ xs) v e = e
get_or-set_self (suc i) (x ∷ xs) v e = get_or-set_self i xs v e

pub drop-suc : (n x : ℕ) (xs ys : List ℕ) → drop n xs ≡ x ∷ ys → drop (suc n) xs ≡ ys
drop-suc zero x [] ys e = ap (drop 1) e
drop-suc zero x (a ∷ xs) ys e = ap (drop 1) e
drop-suc (suc n) x [] ys e = ap (drop 1) e
drop-suc (suc n) x (a ∷ xs) ys e = drop-suc n x xs ys e

pub cell-drop : (n x : ℕ) (s ys : List ℕ) → drop n s ≡ x ∷ ys → cell s n ≡ x
cell-drop zero x [] ys e = ap (λ xs. get_or xs 0 0) e
cell-drop zero x (a ∷ s) ys e = ap (λ xs. get_or xs 0 0) e
cell-drop (suc n) x [] ys e = ap (λ xs. get_or xs 0 0) e
cell-drop (suc n) x (a ∷ s) ys e = cell-drop n x s ys e

-- The cells before `to` are done, and those from `from` on are to come.
pub record Reads (C : Cursor) (finished rest : Text) : Type 0 where
  pub before : take C.to C.cells ≡ finished
  pub after : drop C.from C.cells ≡ rest
  pub behind : C.to ≤ C.from

-- Writing a cell, and going on to read further on.
pub write_cell :
    (C : Cursor) (finished rest more : Text) (c x : ℕ) (from : ℕ)
    → Reads C finished rest
    → drop from C.cells ≡ x ∷ more
    → C.to < from
    → Reads
        (record { cells = set C.cells C.to c; to = suc C.to; from = from })
        (finished ++ c ∷ [])
        (x ∷ more)
write_cell C finished rest more c x from r e lt =
    let n = length-drop from C.cells in
    let m = ap length e in
    record {
      before = take-set_end C.to C.cells c (omega arith) ∙ ap (λ xs. xs ++ c ∷ []) r.before;
      after = drop-set_before from C.to C.cells c lt ∙ e;
      behind = omega arith;
    }

-- Writing the cell at `to` alone leaves what is done and what is to come.
pub overwrite :
    (C : Cursor) (finished rest : Text) (c from : ℕ) (ys : Text)
    → Reads C finished rest
    → drop from C.cells ≡ ys
    → C.to < from
    → Reads (record { cells = set C.cells C.to c; to = C.to; from = from }) finished ys
overwrite C finished rest c from ys r e lt = record {
  before = take-set_from C.to C.to C.cells c (omega arith) ∙ r.before;
  after = drop-set_before from C.to C.cells c lt ∙ e;
  behind = omega arith;
}

-- A text with its terminating zero is not empty.
pub terminated : (t : Text) → (x : ℕ) × (more : Text) × (t ++ 0 ∷ [] ≡ x ∷ more)
terminated [] = (0, [], refl)
terminated (c ∷ t) = (c, t ++ 0 ∷ [], refl)

pub rounds_step :
    (round : Cursor → Option Cursor) (n len : ℕ) (C D : Cursor)
    → C.from < len
    → round C ≡ some D
    → rounds round (suc n) len C ≡ rounds round n len D
unfolding rounds
rounds_step round n len C D lt e = ground arith

pub rounds_end :
    (round : Cursor → Option Cursor) (n len : ℕ) (C : Cursor)
    → len ≤ C.from
    → rounds round (suc n) len C ≡ some C
unfolding rounds
rounds_end round n len C h = ground arith

-- What the cells hold once the terminating zero is written.
abbrev pub Holds : Text → List ℕ → Type 0
Holds bs s = (take (length bs) s ≡ bs) × (cell s (length bs) ≡ 0)

pub terminate-Holds :
    (bs : Text) (s : List ℕ) → take (length bs) s ≡ bs → Holds bs (set s (length bs) 0)
terminate-Holds bs s e = (
  take-set_from (length bs) (length bs) s 0 (omega arith) ∙ e,
  get_or-set_self (length bs) s 0 refl,
)
