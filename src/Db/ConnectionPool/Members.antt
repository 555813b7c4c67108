-- ===== src/Db/ConnectionPool/Members.antt =====
-- The connections of a pool: their addresses, and which of them are lent out.
use libzdb.Prelude.{
  ℕ, ◌≤◌, ◌≡◌, ◌≢◌, refl, ap, ◌∙◌, sym, subst, true, false, List, [], ◌∷◌, ◌++◌, Option, some, none,
  arith, inl, inr, Bool-cases, length, if◌then◌else◌,
}
use libzdb.Db.Delegate.{System}
use libzdb.Db.Connection.{Connection, set_available}
use libzdb.Db.ConnectionPool.{take_available, remove_id, count_active, find_id, update_id}

module _ {s : System} where
  -- No connection of the list is at the address.
  abbrev pub Absent : ℕ → List (Connection s) → Type 0
  Absent id [] = Unit {0}
  Absent id (c ∷ cs) = (c.id ≢ id) × Absent id cs

  -- No two connections of the list are at one address.
  abbrev pub Distinct : List (Connection s) → Type 0
  Distinct [] = Unit {0}
  Distinct (c ∷ cs) = Absent c.id cs × Distinct cs

  -- The connections that are lent out, in the order of the pool.
  unfoldable pub lent : List (Connection s) → List (Connection s)
  lent [] = []
  lent (c ∷ cs) = let rest = lent cs in if c.is_available then rest else c ∷ rest

  unfoldable pub AllLent : List (Connection s) → Type 0
  AllLent [] = Unit {0}
  AllLent (c ∷ cs) = (c.is_available ≡ false) × AllLent cs

  pub lent-append : (cs ds : List (Connection s)) → lent (cs ++ ds) ≡ lent cs ++ lent ds
  unfolding lent
  lent-append [] ds = refl
  lent-append (c ∷ cs) ds = ground (arith, lent-append cs ds)

  pub lent_cons :
      (c : Connection s) (cs : List (Connection s))
      → c.is_available ≡ false
      → lent (c ∷ cs) ≡ c ∷ lent cs
  unfolding lent
  lent_cons c cs h = rw h

  pub lent_cons_available :
      (c : Connection s) (cs : List (Connection s))
      → c.is_available ≡ true
      → lent (c ∷ cs) ≡ lent cs
  unfolding lent
  lent_cons_available c cs h = rw h

  pub lent-tail :
      (c : Connection s) (cs ds : List (Connection s))
      → lent cs ≡ lent ds
      → lent (c ∷ cs) ≡ lent (c ∷ ds)
  unfolding lent
  lent-tail c cs ds h = ground arith

  -- `ConnectionPool_active` counts them.
  pub count_active-lent : (cs : List (Connection s)) → count_active cs ≡ length (lent cs)
  unfolding count_active lent
  count_active-lent [] = refl
  count_active-lent (c ∷ cs) = ground (arith, count_active-lent cs)

  pub lent_nil : lent [] ≡ []
  unfolding lent
  lent_nil = refl

  pub length-lent-le : (cs : List (Connection s)) → length (lent cs) ≤ length cs
  unfolding lent
  length-lent-le [] = omega arith
  length-lent-le (c ∷ cs) = ground (arith, length-lent-le cs)

  pub Absent-append :
      (id : ℕ) (cs ds : List (Connection s)) → Absent id cs → Absent id ds → Absent id (cs ++ ds)
  Absent-append id [] ds h k = k
  Absent-append id (c ∷ cs) ds h k = (h.0, Absent-append id cs ds h.1 k)

  pub Absent-left : (id : ℕ) (cs ds : List (Connection s)) → Absent id (cs ++ ds) → Absent id cs
  Absent-left id [] ds h = tt
  Absent-left id (c ∷ cs) ds h = (h.0, Absent-left id cs ds h.1)

  pub Absent-right : (id : ℕ) (cs ds : List (Connection s)) → Absent id (cs ++ ds) → Absent id ds
  Absent-right id [] ds h = h
  Absent-right id (c ∷ cs) ds h = Absent-right id cs ds h.1

  -- Taking a connection out of the middle, or putting one at the same address there, keeps the
  -- addresses distinct.
  pub Distinct-remove :
      (cs ds : List (Connection s)) (c : Connection s)
      → Distinct (cs ++ c ∷ ds)
      → Distinct (cs ++ ds)
  Distinct-remove [] ds c h = h.1
  Distinct-remove (x ∷ cs) ds c h = (
    Absent-append x.id cs ds (Absent-left x.id cs (c ∷ ds) h.0)
        (Absent-right x.id cs (c ∷ ds) h.0).1,
    Distinct-remove cs ds c h.1,
  )

  pub Distinct-middle :
      (cs ds : List (Connection s)) (c : Connection s)
      → Distinct (cs ++ c ∷ ds)
      → Absent c.id cs × Absent c.id ds
  Distinct-middle [] ds c h = (tt, h.0)
  Distinct-middle (x ∷ cs) ds c h =
      let (left, right) = Distinct-middle cs ds c h.1 in
      ((λ e. (Absent-right x.id cs (c ∷ ds) h.0).0 (sym e), left), right)

  pub Distinct-replace :
      (cs ds : List (Connection s)) (c d : Connection s)
      → d.id ≡ c.id
      → Distinct (cs ++ c ∷ ds)
      → Distinct (cs ++ d ∷ ds)
  Distinct-replace [] ds c d e h = (rw e h.0, h.1)
  Distinct-replace (x ∷ cs) ds c d e h = (
    Absent-append x.id cs (d ∷ ds) (Absent-left x.id cs (c ∷ ds) h.0)
        (rw e (Absent-right x.id cs (c ∷ ds) h.0).0, (Absent-right x.id cs (c ∷ ds) h.0).1),
    Distinct-replace cs ds c d e h.1,
  )

  pub Distinct-append :
      (cs : List (Connection s)) (d : Connection s)
      → Distinct cs
      → Absent d.id cs
      → Distinct (cs ++ d ∷ [])
  Distinct-append [] d h a = (tt, tt)
  Distinct-append (c ∷ cs) d h a =
      (Absent-append c.id cs (d ∷ []) h.0 ((λ e. a.0 (sym e)), tt), Distinct-append cs d h.1 a.1)

  pub remove_id-append :
      (cs ds : List (Connection s)) (c : Connection s)
      → Absent c.id cs
      → remove_id c.id (cs ++ c ∷ ds) ≡ cs ++ ds
  unfolding remove_id
  remove_id-append [] ds c h = ground arith
  remove_id-append (x ∷ cs) ds c h = ground (arith, remove_id-append cs ds c h.1)

  -- What `_getAvailableConnection` comes to: every connection is lent; or the first that is not is
  -- marked, and the others stay as they are.
  abbrev pub Takes :
      List (Connection s) → s.World → Option (Connection s × List (Connection s)) → Type 0
  Takes cs w none = AllLent cs
  Takes cs w (some (d, ds)) =
      (before : List (Connection s)) × (c : Connection s) × (after : List (Connection s)) × (cs
        ≡ before ++ c ∷ after)
      × AllLent before
      × (c.is_available ≡ true)
      × (d ≡ set_available c false w)
      × (ds ≡ before ++ d ∷ after)

  Takes-cons :
      (c : Connection s) (cs : List (Connection s)) (w : s.World)
      (r : Option (Connection s × List (Connection s)))
      → c.is_available ≡ false
      → Takes cs w r
      → Takes (c ∷ cs) w (elim r [ none ↦ none | some (d, ds) ↦ some (d, c ∷ ds) ])
  unfolding AllLent
  Takes-cons c cs w none h t = (h, t)
  Takes-cons c cs w (some (d, ds)) h (before, x, after, e, l, a, m, f) =
      (c ∷ before, x, after, ap (◌∷◌ c) e, (h, l), a, m, ap (◌∷◌ c) f)

  take_here :
      (c : Connection s) (cs : List (Connection s)) (w : s.World)
      → c.is_available ≡ true
      → take_available (c ∷ cs) w ≡ some (set_available c false w, set_available c false w ∷ cs)
  unfolding take_available
  take_here c cs w h = ground arith

  take_later :
      (c : Connection s) (cs : List (Connection s)) (w : s.World)
      → c.is_available ≡ false
      → take_available (c ∷ cs) w
        ≡ (elim (take_available cs w) [ none ↦ none | some (d, ds) ↦ some (d, c ∷ ds) ])
  unfolding take_available
  take_later c cs w h = ground arith

  pub take_available-Takes :
      (cs : List (Connection s)) (w : s.World) → Takes cs w (take_available cs w)
  take_available-Takes [] w = unfold take_available AllLent in tt
  take_available-Takes (c ∷ cs) w = elim (Bool-cases c.is_available) [
    | inl idle ↦
        subst (Takes (c ∷ cs) w) (sym (take_here c cs w idle))
          ([], c, cs, refl, unfold AllLent in tt, idle, refl, refl)
    | inr busy ↦
        subst (Takes (c ∷ cs) w) (sym (take_later c cs w busy))
          (Takes-cons c cs w (take_available cs w) busy (take_available-Takes cs w))
  ]

  pub lent_all : (cs : List (Connection s)) → AllLent cs → lent cs ≡ cs
  unfolding lent AllLent
  lent_all [] h = refl
  lent_all (c ∷ cs) h = ground (arith, lent_all cs h.1)

  -- A connection that is among the lent ones is in the pool.
  abbrev pub Splits :
      List (Connection s) → List (Connection s) → Connection s → List (Connection s) → Type 0
  Splits ds l c r =
      (before : List (Connection s)) × (after : List (Connection s)) × (ds ≡ before ++ c ∷ after)
      × (lent before ≡ l)
      × (lent after ≡ r)

  pub lent-Splits :
      (ds l : List (Connection s)) (c : Connection s) (r : List (Connection s))
      → lent ds ≡ l ++ c ∷ r
      → Splits ds l c r
  lent-Splits [] [] c r e = absurd (cc (lent_nil, e))
  lent-Splits [] (x ∷ l) c r e = absurd (cc (lent_nil, e))
  lent-Splits (d ∷ ds) [] c r e = elim (Bool-cases d.is_available) [
    | inl idle ↦
        let (before, after, p, q, t) =
          lent-Splits ds [] c r (sym (lent_cons_available d ds idle) ∙ e) in
        (d ∷ before, after, ap (◌∷◌ d) p, lent_cons_available d before idle ∙ q, t)
    | inr busy ↦ let all = sym (lent_cons d ds busy) ∙ e in ([], ds, cc all, lent_nil, cc all)
  ]
  lent-Splits (d ∷ ds) (x ∷ l) c r e = elim (Bool-cases d.is_available) [
    | inl idle ↦
        let (before, after, p, q, t) =
          lent-Splits ds (x ∷ l) c r (sym (lent_cons_available d ds idle) ∙ e) in
        (d ∷ before, after, ap (◌∷◌ d) p, lent_cons_available d before idle ∙ q, t)
    | inr busy ↦
        let all = sym (lent_cons d ds busy) ∙ e in
        let (before, after, p, q, t) = lent-Splits ds l c r (cc all) in
        (d ∷ before, after, ap (◌∷◌ d) p, lent_cons d before busy ∙ cc (all, q), t)
  ]

  pub find_id-append :
      (cs ds : List (Connection s)) (c : Connection s)
      → Absent c.id cs
      → find_id c.id (cs ++ c ∷ ds) ≡ some c
  unfolding find_id
  find_id-append [] ds c h = ground arith
  find_id-append (x ∷ cs) ds c h = ground (arith, find_id-append cs ds c h.1)

  pub update_id-append :
      (cs ds : List (Connection s)) (c d : Connection s)
      → Absent c.id cs
      → update_id c.id d (cs ++ c ∷ ds) ≡ cs ++ d ∷ ds
  unfolding update_id
  update_id-append [] ds c d h = ground arith
  update_id-append (x ∷ cs) ds c d h = ground (arith, update_id-append cs ds c d h.1)
