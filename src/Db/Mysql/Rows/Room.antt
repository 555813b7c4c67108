-- ===== src/Db/Mysql/Rows/Room.antt =====
-- That a column is read with room for its value.
use libzdb.Prelude.{
  ℕ, zero, suc, ◌-◌, ◌<◌, ◌≡◌, refl, ap, ◌∙◌, sym, subst, true, List, [], ◌∷◌, ◌++◌, ok, ◌==◌, ltb,
  take, set, get_or, replicate, length, length-append, length-take, length-replicate, arith, inl,
  inr, Bool-cases,
}
use libzdb.Db.Mysql.Adapter.{Mysql, Column}
use libzdb.Db.Mysql.Rows.{Rows, column, no_column, ensure_capacity}

-- Of the buffer, the client library is told all cells but the last.
pub record IsRoomy (c : Column) : Type 0 where
  pub cells : length c.buffer ≡ suc c.buffer_length

-- Fetching a column writes to its buffer, and leaves its size and the length of the value.
abbrev pub KeepsSize : Mysql → Type 0
KeepsSize q =
    (s : q.Stmt) (i : ℕ) (c : Column) (w : q.World)
    → let d = (q.stmt_fetch_column s i c w).0.1 in
      (d.buffer_length ≡ c.buffer_length)
      × (length d.buffer ≡ length c.buffer)
      × (d.real_length ≡ c.real_length)

get_or-set :
    {A : Type 0} (xs : List A) (i : ℕ) (v d : A) → i < length xs → get_or (set xs i v) i d ≡ v
get_or-set [] i v d h = absurd (omega arith)
get_or-set (x ∷ xs) zero v d h = refl
get_or-set (x ∷ xs) (suc i) v d h = get_or-set xs i v d (omega arith)

resized : (a : List ℕ) (n junk : ℕ) → length (take n a ++ replicate (n - length a) junk) ≡ n
resized a n junk =
    let l = length-append (take n a) (replicate (n - length a) junk) in
    let t = length-take n a in let r = length-replicate (n - length a) junk in omega arith

module _ (q : Mysql) where
  -- The column with room, and as it is fetched again.
  abbrev roomy_column : Column → Column
  roomy_column c = record c {
    buffer_length = c.real_length;
    buffer =
        take (suc c.real_length) c.buffer ++ replicate (suc c.real_length - length c.buffer) q.junk;
  }

  abbrev fetched : Rows q → ℕ → q.World → Column
  fetched R i w = (q.stmt_fetch_column R.stmt i (roomy_column (column q R i)) w).0.1

  ensure_capacity-columns :
      (R : Rows q) (i : ℕ) (w : q.World)
      → ltb (column q R i).buffer_length (column q R i).real_length ≡ true
      → (ensure_capacity q R i w).1.columns ≡ set R.columns i (fetched R i w)
  unfolding ensure_capacity
  ensure_capacity-columns R i w cut =
      elim (Bool-cases ((q.stmt_fetch_column R.stmt i (roomy_column (column q R i)) w).0.0 == 0)) [
        | inl fine ↦ rw (cut, fine, ensure_capacity) refl
        | inr failed ↦ rw (cut, failed, ensure_capacity) refl
      ]

module _ (q : Mysql) (keeps : KeepsSize q) where
  -- `_ensureCapacity` leaves a column of which all cells but the last were told to the client library such a
  -- column, also where it throws; and where it does not throw, the cell behind the value, which is
  -- written next, is one of the buffer. Fetching a column must leave the size of its buffer.
  pub ensure_capacity-IsRoomy :
      (R : Rows q) (i : ℕ) (w : q.World)
      → i < length R.columns
      → IsRoomy (column q R i)
      → let (r, S, w') = ensure_capacity q R i w in
        IsRoomy (column q S i)
        × (r ≡ ok tt → (column q S i).real_length < length (column q S i).buffer)
  unfolding ensure_capacity
  ensure_capacity-IsRoomy R i w inside roomy =
      elim (Bool-cases (ltb (column q R i).buffer_length (column q R i).real_length)) [
        | inr fits ↦ rw (fits, ensure_capacity) (roomy, λ done. let c = roomy.cells in ground arith)
        | inl cut ↦
            let (bound, cells, value) = keeps R.stmt i (roomy_column q (column q R i)) w in
            let same : column q (ensure_capacity q R i w).1 i ≡ fetched q R i w =
              ap (λ cs. get_or cs i (no_column q)) (ensure_capacity-columns q R i w cut)
              ∙ get_or-set R.columns i (fetched q R i w) (no_column q) inside in
            let n = resized (column q R i).buffer (suc (column q R i).real_length) q.junk in
            let room : length (fetched q R i w).buffer ≡ suc (column q R i).real_length =
              cells ∙ n in
            (
              subst IsRoomy (sym same) (record { cells = omega arith }),
              λ done. subst (λ c. c.real_length < length c.buffer) (sym same) (omega arith),
            )
      ]
