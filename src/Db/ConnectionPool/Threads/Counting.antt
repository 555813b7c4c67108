-- ===== src/Db/ConnectionPool/Threads/Counting.antt =====
-- How often an address stands in a pool, among its lent connections, and with the clients.
use libzdb.Prelude.{
  ℕ, suc, ◌+◌, ◌≤◌, ◌≡◌, refl, false, List, [], ◌∷◌, ◌++◌, some, arith, ◌==◌, if◌then◌else◌, inl,
  inr, Bool-cases, length,
}
use libzdb.Db.Delegate.{System}
use libzdb.Db.Connection.{Connection}
use libzdb.Db.ConnectionPool.{ids, find_id, update_id, remove_id}
use libzdb.Db.ConnectionPool.Members.{lent}
use libzdb.Db.ConnectionPool.Rounds.{NotAmong}
use libzdb.Db.ConnectionPool.Threads.{
  Phase, outside, looking, pinging, removing, freeing, deciding, connecting, failing, reporting,
  pushing, holding, returning, dangling, private_ids,
}

abbrev pub same : ℕ → ℕ → ℕ
same a b = if b == a then 1 else 0

NotAmong-right : (a : ℕ) (xs ys : List ℕ) → NotAmong a (xs ++ ys) → NotAmong a ys
NotAmong-right a [] ys h = h
NotAmong-right a (x ∷ xs) ys h = NotAmong-right a xs ys h.1

module _ {s : System} where
  abbrev pub all_at : ℕ → List (Connection s) → ℕ
  all_at a [] = 0
  all_at a (c ∷ cs) = same a c.id + all_at a cs

  -- A client holds a connection that is in the pool from where it was given it until it has returned
  -- it or taken it out.
  abbrev pub owns : ℕ → Phase s → ℕ
  owns a (pinging size available id) = same a id
  owns a (removing size available id) = same a id
  owns a (holding id) = same a id
  owns a (returning id) = same a id
  owns a p = 0

  -- A connection that is not, or no longer, in the pool.
  abbrev pub keeps : ℕ → Phase s → ℕ
  keeps a (freeing size available c) = same a c.id
  keeps a (pushing c) = same a c.id
  keeps a p = 0

  abbrev pub total : (Phase s → ℕ) → List (Phase s) → ℕ
  total f [] = 0
  total f (p ∷ ps) = f p + total f ps

  pub total-append :
      (f : Phase s → ℕ) (ps qs : List (Phase s)) → total f (ps ++ qs) ≡ total f ps + total f qs
  total-append f [] qs = omega arith
  total-append f (p ∷ ps) qs = omega (arith, total-append f ps qs)

  pub total-middle :
      (f : Phase s → ℕ) (ps : List (Phase s)) (p : Phase s) (qs : List (Phase s))
      → total f (ps ++ p ∷ qs) ≡ f p + (total f ps + total f qs)
  total-middle f ps p qs = omega (arith, total-append f ps (p ∷ qs))

  pub all_at-append :
      (a : ℕ) (cs ds : List (Connection s)) → all_at a (cs ++ ds) ≡ all_at a cs + all_at a ds
  all_at-append a [] ds = omega arith
  all_at-append a (c ∷ cs) ds = omega (arith, all_at-append a cs ds)

  pub all_at-fresh :
      (a : ℕ) (cs : List (Connection s)) (ys : List ℕ) → NotAmong a (ids cs ++ ys) → all_at a cs ≡ 0
  all_at-fresh a [] ys h = refl
  all_at-fresh a (c ∷ cs) ys h =
      let ih = all_at-fresh a cs ys h.1 in let apart = h.0 in ground arith

  keeps-zero : (a : ℕ) (ps : List (Phase s)) → NotAmong a (private_ids ps) → total (keeps a) ps ≡ 0
  keeps-zero a [] h = refl
  keeps-zero a (freeing size available c ∷ ps) h =
      let ih = keeps-zero a ps h.1 in let apart = h.0 in ground arith
  keeps-zero a (pushing c ∷ ps) h = let ih = keeps-zero a ps h.1 in let apart = h.0 in ground arith
  keeps-zero a (outside ∷ ps) h = omega (arith, keeps-zero a ps h)
  keeps-zero a (looking n k ∷ ps) h = omega (arith, keeps-zero a ps h)
  keeps-zero a (pinging n k i ∷ ps) h = omega (arith, keeps-zero a ps h)
  keeps-zero a (removing n k i ∷ ps) h = omega (arith, keeps-zero a ps h)
  keeps-zero a (deciding n ∷ ps) h = omega (arith, keeps-zero a ps h)
  keeps-zero a (connecting ∷ ps) h = omega (arith, keeps-zero a ps h)
  keeps-zero a (failing ∷ ps) h = omega (arith, keeps-zero a ps h)
  keeps-zero a (reporting t ∷ ps) h = omega (arith, keeps-zero a ps h)
  keeps-zero a (holding i ∷ ps) h = omega (arith, keeps-zero a ps h)
  keeps-zero a (returning i ∷ ps) h = omega (arith, keeps-zero a ps h)
  keeps-zero a (dangling ∷ ps) h = omega (arith, keeps-zero a ps h)

  pub keeps-fresh :
      (a : ℕ) (cs : List (Connection s)) (ps : List (Phase s))
      → NotAmong a (ids cs ++ private_ids ps)
      → total (keeps a) ps ≡ 0
  keeps-fresh a cs ps h = keeps-zero a ps (NotAmong-right a (ids cs) (private_ids ps) h)

  -- The lent connections are among all.
  pub lent-le : (a : ℕ) (cs : List (Connection s)) → all_at a (lent cs) ≤ all_at a cs
  unfolding lent
  lent-le a [] = omega arith
  lent-le a (c ∷ cs) = ground (arith, lent-le a cs)

  -- What is known of a connection that some client has: the first at its address is lent.
  pub find_id-lent :
      (a : ℕ) (cs : List (Connection s))
      → 1 ≤ all_at a (lent cs)
      → all_at a cs ≤ 1
      → (c : Connection s) × (find_id a cs ≡ some c) × (c.id ≡ a) × (c.is_available ≡ false)
  unfolding lent find_id
  find_id-lent a [] h k = absurd (omega arith)
  find_id-lent a (c ∷ cs) h k = elim (Bool-cases (c.id == a)) [
    | inl here ↦ let le = lent-le a cs in (c, ground arith, ground arith, ground arith)
    | inr there ↦
        let (d, e, i, b) = find_id-lent a cs (ground arith) (ground arith) in
        (d, ground arith, i, b)
  ]

  -- Putting another connection in the place of one changes the counts by the two.
  abbrev pub lends : ℕ → Connection s → ℕ
  lends a c = if c.is_available then 0 else same a c.id

  pub lent_cons_count :
      (a : ℕ) (c : Connection s) (cs : List (Connection s))
      → all_at a (lent (c ∷ cs)) ≡ lends a c + all_at a (lent cs)
  unfolding lent
  lent_cons_count a c cs = ground arith

  pub update_id-count :
      (a id : ℕ) (cs : List (Connection s)) (c d : Connection s)
      → find_id id cs ≡ some c
      → d.id ≡ c.id
      → (all_at a (update_id id d cs) ≡ all_at a cs)
        × (all_at a (lent (update_id id d cs)) + lends a c ≡ all_at a (lent cs) + lends a d)
  unfolding update_id find_id
  update_id-count a id [] c d f e = cc
  update_id-count a id (x ∷ cs) c d f e = elim (Bool-cases (x.id == id)) [
    | inl here ↦
        let found : x ≡ c = ground arith in
        rw here (
          rw found (ground arith),
          rw (lent_cons_count a d cs, lent_cons_count a x cs, found) (omega arith),
        )
    | inr there ↦
        let (all, some_lent) = update_id-count a id cs c d (ground arith) e in
        rw there (
          omega arith,
          rw (lent_cons_count a x (update_id id d cs), lent_cons_count a x cs) (omega arith),
        )
  ]

  pub remove_id-count :
      (a id : ℕ) (cs : List (Connection s)) (c : Connection s)
      → find_id id cs ≡ some c
      → (all_at a (remove_id id cs) + same a c.id ≡ all_at a cs)
        × (all_at a (lent (remove_id id cs)) + lends a c ≡ all_at a (lent cs))
        × (length cs ≡ suc (length (remove_id id cs)))
  unfolding remove_id find_id
  remove_id-count a id [] c f = cc
  remove_id-count a id (x ∷ cs) c f = elim (Bool-cases (x.id == id)) [
    | inl here ↦
        let found : x ≡ c = ground arith in
        rw here (rw found (omega arith), rw (lent_cons_count a x cs, found) (omega arith), refl)
    | inr there ↦
        let (all, some_lent, n) = remove_id-count a id cs c (ground arith) in
        rw there (
          omega arith,
          rw (lent_cons_count a x (remove_id id cs), lent_cons_count a x cs) (omega arith),
          omega arith,
        )
  ]
