-- ===== src/Db/ConnectionPool/Threads/Effects.antt =====
-- What each step of a client does to the counts.
use libzdb.Prelude.{
  ℕ, ◌+◌, ◌-◌, ◌≤◌, ◌≡◌, refl, ap, ◌∙◌, sym, subst, true, false, List, ◌∷◌, some, none, arith, inl,
  inr, Bool-cases, Option-cases, length, ◌⊎◌,
}
use libzdb.Db.Delegate.{System}
use libzdb.Db.Connection.{Connection, ping, set_available}
use libzdb.Db.Connection.Creating.{set_available_lem}
use libzdb.Db.ConnectionPool.{ConnectionPool, find_id, update_id, remove_id, take_available}
use libzdb.Db.ConnectionPool.Members.{lent, lent-append, Takes, take_available-Takes}
use libzdb.Db.ConnectionPool.Threads.{
  Phase, outside, looking, pinging, removing, freeing, deciding, holding, returning, dangling,
  Moved, ping_at, remove_at, look, restore,
}
use libzdb.Db.ConnectionPool.Threads.Counting.{
  same, all_at, owns, keeps, all_at-append, find_id-lent, update_id-count, remove_id-count, lends,
  lent_cons_count,
}

module _ {s : System} where
  -- One if the client has used the address of a connection that was freed.
  abbrev pub faults : Phase s → ℕ
  faults dangling = 1
  faults p = 0

  -- The address is that of a lent connection of the pool, and of no other.
  abbrev pub IsLentAt : ℕ → ConnectionPool s → Type 0
  IsLentAt id P = (1 ≤ all_at id (lent P.pool)) × (all_at id P.pool ≤ 1)

  -- The client gains as an owner what the pool gains in lent connections; what it has for itself and
  -- what is in the pool do not grow together; and it has not used a freed connection.
  abbrev pub Balances : Phase s → ConnectionPool s → Moved s → Type 0
  Balances p P (p', P', w') =
      (faults p' ≡ 0)
      × ((a : ℕ)
          → (all_at a (lent P'.pool) + owns a p ≡ all_at a (lent P.pool) + owns a p')
            × (all_at a P'.pool + keeps a p' ≤ all_at a P.pool + keeps a p))

  look-some :
      (a : ℕ) (cs : List (Connection s)) (w : s.World) (con : Connection s)
      (ds : List (Connection s))
      → take_available cs w ≡ some (con, ds)
      → (all_at a ds ≡ all_at a cs) × (all_at a (lent ds) ≡ all_at a (lent cs) + same a con.id)
  look-some a cs w con ds e =
      let (before, c, after, split, _, idle, marked, rest) =
        subst (Takes cs w) e (take_available-Takes cs w) in
      let (same_id, busy, _) = set_available_lem c false w in
      let id_eq : con.id ≡ c.id = ap (λ c. c.id) marked ∙ same_id in
      let lent_now : con.is_available ≡ false = ap (λ c. c.is_available) marked ∙ busy in
      let all_old = ap (all_at a) split ∙ all_at-append a before (c ∷ after) in
      let all_new = ap (all_at a) rest ∙ all_at-append a before (con ∷ after) in
      let lent_old =
        ap (λ cs. all_at a (lent cs)) split
        ∙ ap (all_at a) (lent-append before (c ∷ after))
        ∙ all_at-append a (lent before) (lent (c ∷ after)) in
      let lent_new =
        ap (λ cs. all_at a (lent cs)) rest
        ∙ ap (all_at a) (lent-append before (con ∷ after))
        ∙ all_at-append a (lent before) (lent (con ∷ after)) in
      let old = lent_cons_count a c after in
      let new = lent_cons_count a con after in
      let same_count : same a con.id ≡ same a c.id = ap (same a) id_eq in
      let none_old : lends a c ≡ 0 = rw idle in
      let one_new : lends a con ≡ same a con.id = rw lent_now in (omega arith, omega arith)

  pub look-none_step :
      (size available : ℕ) (P : ConnectionPool s) (w : s.World)
      → take_available P.pool w ≡ none
      → look size available P w ≡ (deciding size, P, w)
  unfolding look
  look-none_step size available P w e = ground arith

  pub look-some_step :
      (size available : ℕ) (P : ConnectionPool s) (w : s.World) (con : Connection s)
      (cs : List (Connection s))
      → take_available P.pool w ≡ some (con, cs)
      → look size available P w ≡ (pinging size available con.id, record P { pool = cs }, w)
  unfolding look
  look-some_step size available P w con cs e = ground arith

  pub look-Balances :
      (size available : ℕ) (P : ConnectionPool s) (w : s.World)
      → Balances (looking size available) P (look size available P w)
  look-Balances size available P w = elim (Option-cases (take_available P.pool w)) [
    | inl e ↦
        subst (Balances (looking size available) P) (sym (look-none_step size available P w e))
          (refl, λ a. (refl, omega arith))
    | inr ((con, cs), e) ↦
        subst (Balances (looking size available) P)
          (sym (look-some_step size available P w con cs e))
          (refl, λ a. let (all, more) = look-some a P.pool w con cs e in (omega arith, omega arith))
  ]

  ping_step :
      (size available id : ℕ) (P : ConnectionPool s) (w : s.World) (c : Connection s)
      → find_id id P.pool ≡ some c
      → (p : Phase s) × (w' : s.World) × (ping_at size available id P w ≡ (p, P, w'))
        × ((p ≡ holding id) ⊎ (p ≡ removing size available id))
  unfolding ping_at
  ping_step size available id P w c e = elim (Bool-cases (ping c w).0) [
    | inl up ↦ (holding id, (ping c w).1, ground arith, inl refl)
    | inr down ↦ (removing size available id, (ping c w).1, ground arith, inr refl)
  ]

  pub ping_at-Balances :
      (size available id : ℕ) (P : ConnectionPool s) (w : s.World)
      → IsLentAt id P
      → Balances (pinging size available id) P (ping_at size available id P w)
  ping_at-Balances size available id P w (h, k) =
      let (c, e, _, _) = find_id-lent id P.pool h k in
      let (p, w', step, way) = ping_step size available id P w c e in
      subst (Balances (pinging size available id) P) (sym step) (elim way [
        | inl up ↦ rw up (refl, λ a. (refl, omega arith))
        | inr down ↦ rw down (refl, λ a. (refl, omega arith))
      ])

  remove_step :
      (available id : ℕ) (P : ConnectionPool s) (w : s.World) (c : Connection s)
      → find_id id P.pool ≡ some c
      → remove_at available id P w ≡ (
        freeing (length (remove_id id P.pool)) (available - 1) c,
        record P { pool = remove_id id P.pool },
        w,
      )
  unfolding remove_at
  remove_step available id P w c e = ground arith

  pub lends_busy : (a : ℕ) (c : Connection s) → c.is_available ≡ false → lends a c ≡ same a c.id
  lends_busy a c h = rw h

  pub remove_at-Balances :
      (size available id : ℕ) (P : ConnectionPool s) (w : s.World)
      → IsLentAt id P
      → Balances (removing size available id) P (remove_at available id P w)
  remove_at-Balances size available id P w (h, k) =
      let (c, e, same_id, busy) = find_id-lent id P.pool h k in
      subst (Balances (removing size available id) P) (sym (remove_step available id P w c e)) (
        refl,
        λ a.
            let (all, some_lent, _) = remove_id-count a id P.pool c e in
            let one = lends_busy a c busy in
            let here : same a c.id ≡ same a id = ap (same a) same_id in (omega arith, omega arith),
      )

  restore_step :
      (id : ℕ) (P : ConnectionPool s) (w : s.World) (c : Connection s)
      → find_id id P.pool ≡ some c
      → restore id P w
        ≡ (outside, record P { pool = update_id id (set_available c true w) P.pool }, w)
  unfolding restore
  restore_step id P w c e = ground arith

  pub restore-Balances :
      (id : ℕ) (P : ConnectionPool s) (w : s.World)
      → IsLentAt id P
      → Balances (returning id) P (restore id P w)
  restore-Balances id P w (h, k) =
      let (c, e, same_id, busy) = find_id-lent id P.pool h k in
      let d = set_available c true w in
      let (kept_id, idle, _) = set_available_lem c true w in
      subst (Balances (returning id) P) (sym (restore_step id P w c e)) (
        refl,
        λ a.
            let (all, some_lent) = update_id-count a id P.pool c d e kept_id in
            let one = lends_busy a c busy in
            let zero_now : lends a d ≡ 0 = rw idle in
            let here : same a c.id ≡ same a id = ap (same a) same_id in (omega arith, omega arith),
      )
