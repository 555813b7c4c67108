-- ===== src/Db/ConnectionPool/Rounds.antt =====
-- The rounds of `_getConnection`: what each takes from the pool, and what `_createConnection` adds.
use libzdb.Prelude.{
  ℕ, suc, ◌≡◌, ◌≢◌, refl, ap, ◌∙◌, sym, subst, true, false, List, [], ◌∷◌, ◌++◌, some, none, arith,
  inl, inr, Bool-cases, Option-cases, Text, Exception, length, ltb, length-append, ◌⊎◌, append-nil,
}
use libzdb.Db.Delegate.{System}
use libzdb.Db.Connection.{Connection, set_available, ping, free}
use libzdb.Db.Connection.Creating.{new-IsFresh, set_available_lem}
use libzdb.Db.ConnectionPool.{
  ConnectionPool, Setting, Acquired, Outcome, got, failed, threw, ids, count_active, take_available,
  remove_id, connect, noted, creation_error, create, create_or_fail, acquire,
}
use libzdb.Db.ConnectionPool.Members.{
  Absent, Distinct, lent, AllLent, lent-append, lent_nil, lent_cons, lent_cons_available,
  count_active-lent, Distinct-remove, Distinct-middle, Distinct-replace, Distinct-append,
  remove_id-append, Takes, take_available-Takes,
}

-- The address is none of those.
abbrev pub NotAmong : ℕ → List ℕ → Type 0
NotAmong a [] = Unit {0}
NotAmong a (x ∷ xs) = (x ≢ a) × NotAmong a xs

-- What `malloc` promises: an address that is not in use.
abbrev pub IsFreshAddress : {s : System} → Setting s → Type 0
IsFreshAddress env = (xs : List ℕ) → NotAmong (env.malloc xs) xs

module _ {s : System} where
  pub Absent-NotAmong : (a : ℕ) (cs : List (Connection s)) → NotAmong a (ids cs) → Absent a cs
  Absent-NotAmong a [] h = tt
  Absent-NotAmong a (c ∷ cs) h = (h.0, Absent-NotAmong a cs h.1)

  -- What a call leaves, seen from the connections that the pool held: all addresses are still distinct;
  -- where one was handed out, the lent connections are those that were lent and this one; where none
  -- was, they are those that were lent.
  abbrev pub Lends : List (Connection s) → Acquired s → List (Connection s) → Type 0
  Lends cs (got con) ds =
      Distinct ds
      × (con.is_available ≡ false)
      × ((l : List (Connection s)) × (r : List (Connection s)) × (lent cs ≡ l ++ r)
          × (lent ds ≡ l ++ con ∷ r))
  Lends cs (failed message) ds = Distinct ds × (lent ds ≡ lent cs)
  Lends cs (threw e) ds = Distinct ds × (lent ds ≡ lent cs)

module _ {s : System} (env : Setting s) where
  -- `_createConnection` puts a new connection, already lent, at the end of the pool, or fails and leaves
  -- the pool.
  abbrev pub Creates : ConnectionPool s → s.World → Acquired s → List (Connection s) → Type 0
  Creates P w r ds =
      ((((m : Text) × (r ≡ failed m)) ⊎ ((e : Exception) × (r ≡ threw e)))
        × (ds ≡ P.pool)
        × ((connect env P w).0.connection ≡ none))
      ⊎ ((c : Connection s) × ((connect env P w).0.connection ≡ some c)
          × (r ≡ got (set_available c false (connect env P w).1))
          × (ds ≡ P.pool ++ set_available c false (connect env P w).1 ∷ []))

  pub create-Creates :
      (P : ConnectionPool s) (w : s.World) → Creates P w (create env P w).0 (create env P w).1.pool
  unfolding create
  create-Creates P w = elim (Option-cases (connect env P w).0.connection) [
    | inl nothing ↦ elim (Option-cases (connect env P w).0.thrown) [
      | inl silent ↦
          let message = creation_error (noted env P (connect env P w).0.message).error in
          inl (inl (message, ground arith), ground arith, nothing)
      | inr (e, thrown) ↦ inl (inr (e, ground arith), ground arith, nothing)
    ]
    | inr (c, made) ↦ inr (c, made, ground arith, ground arith)
  ]

  pub create-Lends :
      IsFreshAddress env
      → (P : ConnectionPool s) (w : s.World) → Distinct P.pool
      → Lends P.pool (create env P w).0 (create env P w).1.pool
  create-Lends fresh P w d = elim (create-Creates P w) [
    | inl (inl (m, r), p, _) ↦ rw (r, p) (d, refl)
    | inl (inr (e, r), p, _) ↦ rw (r, p) (d, refl)
    | inr (c, made, r, p) ↦
        let con = set_available c false (connect env P w).1 in
        let (same_id, busy, _) = set_available_lem c false (connect env P w).1 in
        let at = new-IsFresh env.cops (env.malloc (ids P.pool)) P.url w c made in
        rw (r, p)
          (
            Distinct-append P.pool con d
                (rw (same_id ∙ at.at) (Absent-NotAmong _ P.pool (fresh (ids P.pool)))),
            busy,
            (
              lent P.pool,
              [],
              sym (append-nil (lent P.pool)),
              lent-append P.pool (con ∷ [])
                  ∙ ap (λ t. lent P.pool ++ t) (lent_cons con [] busy ∙ ap (◌∷◌ con) lent_nil),
            ),
          )
  ]

  pub create_or_fail-Lends :
      IsFreshAddress env
      → (size : ℕ) (P : ConnectionPool s) (w : s.World) → Distinct P.pool
      → Lends P.pool (create_or_fail env size P w).0 (create_or_fail env size P w).1.pool
  unfolding create_or_fail
  create_or_fail-Lends fresh size P w d = elim (Bool-cases (ltb size P.max_connections)) [
    | inl room ↦ rw room (create-Lends fresh P w d)
    | inr full ↦ rw full (d, refl)
  ]

  -- A round of the loop whose connection does not answer: the pool without it.
  pub Lends-via :
      (cs ds : List (Connection s)) (r : Acquired s) (es : List (Connection s))
      → lent ds ≡ lent cs
      → Lends ds r es
      → Lends cs r es
  Lends-via cs ds (got con) es e (d, busy, (l, r, p, q)) = (d, busy, (l, r, sym e ∙ p, q))
  Lends-via cs ds (failed m) es e (d, p) = (d, p ∙ e)
  Lends-via cs ds (threw x) es e (d, p) = (d, p ∙ e)

  -- What a round of the loop has taken from the pool and marked as lent.
  pub record Taken (P : ConnectionPool s) (w : s.World) (con : Connection s) : Type 0 where
    pub before : List (Connection s)
    pub idle : Connection s
    pub after : List (Connection s)
    pub split : P.pool ≡ before ++ idle ∷ after
    pub busy_before : AllLent before
    pub was_idle : idle.is_available ≡ true
    pub marked : con ≡ set_available idle false w

  pub acquire-none :
      (available size : ℕ) (P : ConnectionPool s) (w : s.World)
      → take_available P.pool w ≡ none
      → acquire env (suc available) size P w ≡ create_or_fail env size P w
  unfolding acquire
  acquire-none available size P w e = ground arith

  pub acquire_alive :
      (available size : ℕ) (P : ConnectionPool s) (w : s.World) (con : Connection s)
      (cs : List (Connection s))
      → take_available P.pool w ≡ some (con, cs)
      → (ping con w).0 ≡ true
      → acquire env (suc available) size P w ≡ (got con, record P { pool = cs }, (ping con w).1)
  unfolding acquire
  acquire_alive available size P w con cs e up = ground arith

  pub acquire_dead :
      (available size : ℕ) (P : ConnectionPool s) (w : s.World) (con : Connection s)
      (cs : List (Connection s))
      → take_available P.pool w ≡ some (con, cs)
      → (ping con w).0 ≡ false
      → acquire env (suc available) size P w
        ≡ acquire env available
            (length (remove_id con.id cs))
            (record P { pool = remove_id con.id cs })
            (free con (ping con w).1)
  unfolding acquire
  acquire_dead available size P w con cs e down = ground arith

  -- The three ways that a round goes.
  pub acquire_cases {ℓ} :
      (X : Outcome s (Acquired s) → Type ℓ) (available size : ℕ) (P : ConnectionPool s)
      (w : s.World)
      → (AllLent P.pool → X (create_or_fail env size P w))
      → ((con : Connection s) (t : Taken P w con)
          → (ping con w).0 ≡ true
          → X (got con, record P { pool = t.before ++ con ∷ t.after }, (ping con w).1))
      → ((con : Connection s) (t : Taken P w con)
          → (ping con w).0 ≡ false
          → let left = remove_id con.id (t.before ++ con ∷ t.after) in
            X (
              acquire env available
                (length left)
                (record P { pool = left })
                (free con (ping con w).1)))
      → X (acquire env (suc available) size P w)
  acquire_cases X available size P w nothing alive dead =
      elim (Option-cases (take_available P.pool w)) [
        | inl e ↦
            subst X (sym (acquire-none available size P w e))
              (nothing (subst (Takes P.pool w) e (take_available-Takes P.pool w)))
        | inr ((con, cs), e) ↦
            let (before, idle, after, split, busy, was, marked, rest) =
              subst (Takes P.pool w) e (take_available-Takes P.pool w) in
            let t : Taken P w con = record {
              before = before;
              idle = idle;
              after = after;
              split = split;
              busy_before = busy;
              was_idle = was;
              marked = marked;
            } in
            let taken = e ∙ ap (λ l. some (con, l)) rest in
            elim (Bool-cases (ping con w).0) [
              | inl up ↦
                  subst X (sym (acquire_alive available size P w con _ taken up)) (alive con t up)
              | inr down ↦
                  subst X (sym (acquire_dead available size P w con _ taken down)) (dead con t down)
            ]
      ]

  -- What the pool is once a connection was taken, and once it was removed again.
  module _ (P : ConnectionPool s) (w : s.World) (con : Connection s) (t : Taken P w con) where
    pub Taken-busy : (con.id ≡ t.idle.id) × (con.is_available ≡ false)
    Taken-busy =
        let (same_id, busy, _) = set_available_lem t.idle false w in
        (ap (λ c. c.id) t.marked ∙ same_id, ap (λ c. c.is_available) t.marked ∙ busy)

    pub Taken-Distinct : Distinct P.pool → Distinct (t.before ++ con ∷ t.after)
    Taken-Distinct d =
        Distinct-replace t.before t.after t.idle con Taken-busy.0 (subst Distinct t.split d)

    pub Taken-lent : lent P.pool ≡ lent t.before ++ lent t.after
    Taken-lent =
        ap lent t.split
        ∙ lent-append t.before (t.idle ∷ t.after)
        ∙ ap (λ l. lent t.before ++ l) (lent_cons_available t.idle t.after t.was_idle)

    pub Taken-Lends : Distinct P.pool → Lends P.pool (got con) (t.before ++ con ∷ t.after)
    Taken-Lends d = (
      Taken-Distinct d,
      Taken-busy.1,
      (
        lent t.before,
        lent t.after,
        Taken-lent,
        lent-append t.before (con ∷ t.after)
            ∙ ap (λ l. lent t.before ++ l) (lent_cons con t.after Taken-busy.1),
      ),
    )

    pub Taken-left :
        Distinct P.pool → remove_id con.id (t.before ++ con ∷ t.after) ≡ t.before ++ t.after
    Taken-left d =
        remove_id-append t.before t.after con
          (Distinct-middle t.before t.after con (Taken-Distinct d)).0

    pub Taken-length : length P.pool ≡ suc (length (t.before ++ t.after))
    Taken-length =
        ap length t.split
        ∙ length-append t.before (t.idle ∷ t.after)
        ∙ grind (arith, length-append t.before t.after)

    -- Once it is removed again the lent connections are those that were lent.
    pub Taken-kept :
        Distinct P.pool → lent (remove_id con.id (t.before ++ con ∷ t.after)) ≡ lent P.pool
    Taken-kept d = ap lent (Taken-left d) ∙ lent-append t.before t.after ∙ sym Taken-lent

    pub Taken-count :
        Distinct P.pool
        → count_active (remove_id con.id (t.before ++ con ∷ t.after)) ≡ count_active P.pool
    Taken-count d = count_active-lent _ ∙ ap length (Taken-kept d) ∙ sym (count_active-lent P.pool)

    pub Taken-shrinks :
        Distinct P.pool
        → length P.pool ≡ suc (length (remove_id con.id (t.before ++ con ∷ t.after)))
    Taken-shrinks d = Taken-length ∙ ap (λ l. suc (length l)) (sym (Taken-left d))

    pub Taken-apart : Distinct P.pool → Distinct (remove_id con.id (t.before ++ con ∷ t.after))
    Taken-apart d =
        subst Distinct (sym (Taken-left d))
          (Distinct-remove t.before t.after con (Taken-Distinct d))
