-- ===== src/Db/ConnectionPool/Threads/Sequential.antt =====
-- A client that is alone: its steps come to what the call of `_getConnection` is, done at once.
use libzdb.Prelude.{
  ℕ, zero, suc, ◌-◌, ◌≡◌, refl, ap, ◌∙◌, sym, subst, true, false, [], ◌∷◌, ◌++◌, some, none, arith,
  if◌then◌else◌, inl, inr, Bool-cases, Option-cases, Exception, length, ltb, append-nil,
}
use libzdb.Db.Delegate.{System}
use libzdb.Db.Connection.{Connection, new, free, ping}
use libzdb.Db.ConnectionPool.{
  ConnectionPool, Setting, Acquired, Outcome, got, failed, threw, ids, find_id, take_available,
  remove_id, count_active, connect, noted, create, create_or_fail, acquire, get_connection,
  pool_is_full, creation_error,
}
use libzdb.Db.ConnectionPool.Members.{
  Distinct, Distinct-middle, Distinct-replace, Takes, take_available-Takes, find_id-append,
  remove_id-append, Distinct-remove,
}
use libzdb.Db.Connection.Creating.{set_available_lem}
use libzdb.Db.ConnectionPool.Threads.Effects.{look-none_step, look-some_step}
use libzdb.Db.ConnectionPool.Rounds.{acquire-none, acquire_alive, acquire_dead}
use libzdb.Db.ConnectionPool.Threads.{
  Phase, outside, looking, pinging, removing, freeing, deciding, connecting, failing, reporting,
  pushing, holding, Moved, ping_at, remove_at, look, settle, report, forget, push, begin_get,
  advance, private_ids,
}

module _ {s : System} (env : Setting s) where
  -- What a client comes to by so many of its own steps, with nothing else happening between them: no
  -- other client, no sweep of the reaper, and no change of the world but by these steps.
  pub data Runs (m : Moved s) : Moved s → Type 0 where
    begins : Runs m m
    goes_on :
        {n : Moved s} (p : Phase s) (P : ConnectionPool s) (w : s.World)
        → Runs m (p, P, w)
        → n ≡ advance env p (ids P.pool ++ private_ids (p ∷ [])) P w
        → Runs m n

  -- Where the client is once the call has returned.
  abbrev pub returned : Outcome s (Acquired s) → Moved s
  returned (got con, P, w) = (holding con.id, P, w)
  returned (failed message, P, w) = (outside, P, w)
  returned (threw e, P, w) = (outside, P, w)

  module _ (S : Moved s) where
    solo_step :
        (p : Phase s) (P : ConnectionPool s) (w : s.World)
        → Runs S (p, P, w)
        → Runs S (advance env p (ids P.pool ++ private_ids (p ∷ [])) P w)
    solo_step p P w r = goes_on p P w r refl

    step_to :
        (p : Phase s) (P : ConnectionPool s) (w : s.World) (m : Moved s)
        → advance env p (ids P.pool ++ private_ids (p ∷ [])) P w ≡ m
        → Runs S (p, P, w)
        → Runs S m
    step_to p P w m e r = subst (λ m. Runs S m) e (solo_step p P w r)

    settle-none :
        (P : ConnectionPool s) (w : s.World)
        → (connect env P w).0.connection ≡ none
        → (connect env P w).0.thrown ≡ none
        → settle env P (connect env P w).0 (connect env P w).1
          ≡ (failing, noted env P (connect env P w).0.message, (connect env P w).1)
    unfolding settle
    settle-none P w e silent = ground arith

    settle_threw :
        (P : ConnectionPool s) (w : s.World) (x : Exception)
        → (connect env P w).0.connection ≡ none
        → (connect env P w).0.thrown ≡ some x
        → settle env P (connect env P w).0 (connect env P w).1 ≡ returned (create env P w)
    unfolding settle create
    settle_threw P w x e thrown = ground arith

    create-none :
        (P : ConnectionPool s) (w : s.World)
        → (connect env P w).0.connection ≡ none
        → (connect env P w).0.thrown ≡ none
        → forget (noted env P (connect env P w).0.message) (connect env P w).1
          ≡ returned (create env P w)
    unfolding forget create
    create-none P w e silent = ground arith

    settle-some :
        (P : ConnectionPool s) (w : s.World) (c : Connection s)
        → (connect env P w).0.connection ≡ some c
        → settle env P (connect env P w).0 (connect env P w).1
          ≡ (pushing c, noted env P (connect env P w).0.message, (connect env P w).1)
    unfolding settle
    settle-some P w c e = ground arith

    create-some :
        (P : ConnectionPool s) (w : s.World) (c : Connection s)
        → (connect env P w).0.connection ≡ some c
        → push c (noted env P (connect env P w).0.message) (connect env P w).1
          ≡ returned (create env P w)
    unfolding push create
    create-some P w c e = ground arith

    connecting-Runs :
        (P : ConnectionPool s) (w : s.World)
        → Runs S (connecting, P, w)
        → Runs S (returned (create env P w))
    unfolding advance
    connecting-Runs P w r =
        let made : Runs S (settle env P (connect env P w).0 (connect env P w).1) =
          subst
            (λ used. Runs S (
              settle env P (new env.cops (env.malloc used) P.url w).0
                (new env.cops (env.malloc used) P.url w).1))
            (append-nil (ids P.pool)) (solo_step connecting P w r) in
        elim (Option-cases (connect env P w).0.connection) [
          | inl e ↦ elim (Option-cases (connect env P w).0.thrown) [
            | inl silent ↦
                let Q = noted env P (connect env P w).0.message in
                let w' = (connect env P w).1 in
                subst (λ m. Runs S m) (create-none P w e silent)
                  (solo_step (reporting (creation_error Q.error)) Q w' (
                    step_to failing Q w' (reporting (creation_error Q.error), Q, w')
                      (unfold report in refl)
                      (subst (λ m. Runs S m) (settle-none P w e silent) made)))
            | inr (x, thrown) ↦ subst (λ m. Runs S m) (settle_threw P w x e thrown) made
          ]
          | inr (c, e) ↦
              subst (λ m. Runs S m) (create-some P w c e)
                (solo_step (pushing c) _ _ (subst (λ m. Runs S m) (settle-some P w c e) made))
        ]

    deciding_step :
        (size : ℕ) (P : ConnectionPool s) (w : s.World)
        → advance env (deciding size) (ids P.pool ++ []) P w
          ≡ (if ltb size P.max_connections then connecting else outside, P, w)
    unfolding advance
    deciding_step size P w = refl

    create_room :
        (size : ℕ) (P : ConnectionPool s) (w : s.World)
        → ltb size P.max_connections ≡ true
        → create_or_fail env size P w ≡ create env P w
    unfolding create_or_fail
    create_room size P w e = ground arith

    create_full :
        (size : ℕ) (P : ConnectionPool s) (w : s.World)
        → ltb size P.max_connections ≡ false
        → create_or_fail env size P w ≡ (failed pool_is_full, P, w)
    unfolding create_or_fail
    create_full size P w e = ground arith

    deciding-Runs :
        (size : ℕ) (P : ConnectionPool s) (w : s.World)
        → Runs S (deciding size, P, w)
        → Runs S (returned (create_or_fail env size P w))
    deciding-Runs size P w r = elim (Bool-cases (ltb size P.max_connections)) [
      | inl room ↦
          subst (λ o. Runs S (returned o)) (sym (create_room size P w room))
            (connecting-Runs P w (
              step_to (deciding size) P w (connecting, P, w) (deciding_step size P w ∙ rw room refl)
                r))
      | inr full ↦
          subst (λ o. Runs S (returned o)) (sym (create_full size P w full))
            (step_to (deciding size) P w (outside, P, w) (deciding_step size P w ∙ rw full refl) r)
    ]

    look_step :
        (size k : ℕ) (P : ConnectionPool s) (w : s.World)
        → advance env (looking size (suc k)) (ids P.pool ++ []) P w ≡ look size (suc k) P w
    unfolding advance
    look_step size k P w = refl

    ping_step :
        (size k id : ℕ) (P : ConnectionPool s) (w : s.World) (c : Connection s)
        → find_id id P.pool ≡ some c
        → advance env (pinging size k id) (ids P.pool ++ []) P w
          ≡ (if (ping c w).0 then holding id else removing size k id, P, (ping c w).1)
    unfolding advance ping_at
    ping_step size k id P w c e = ground arith

    remove_step :
        (size k id : ℕ) (P : ConnectionPool s) (w : s.World) (c : Connection s)
        → find_id id P.pool ≡ some c
        → advance env (removing size (suc k) id) (ids P.pool ++ []) P w
          ≡ (freeing (length (remove_id id P.pool)) k c, record P { pool = remove_id id P.pool }, w)
    unfolding advance remove_at
    remove_step size k id P w c e = ground arith

    free_step :
        (size k : ℕ) (c : Connection s) (P : ConnectionPool s) (w : s.World)
        → advance env (freeing size k c) (ids P.pool ++ c.id ∷ []) P w
          ≡ (looking size k, P, free c w)
    unfolding advance
    free_step size k c P w = refl

    looking-Runs :
        (k size : ℕ) (P : ConnectionPool s) (w : s.World)
        → Distinct P.pool
        → Runs S (looking size k, P, w)
        → Runs S (returned (acquire env k size P w))
    looking-Runs zero size P w d r =
        unfold acquire in
        deciding-Runs size P w
          (step_to (looking size zero) P w (deciding size, P, w) (unfold advance in refl) r)
    looking-Runs (suc k) size P w d r = elim (Option-cases (take_available P.pool w)) [
      | inl e ↦
          subst (λ o. Runs S (returned o)) (sym (acquire-none env k size P w e))
            (deciding-Runs size P w (
              step_to (looking size (suc k)) P w (deciding size, P, w)
                (look_step size k P w ∙ look-none_step size (suc k) P w e) r))
      | inr ((con, cs), e) ↦
          let (before, idle, after, split, busy, was, marked, rest) =
            subst (Takes P.pool w) e (take_available-Takes P.pool w) in
          let id_eq : con.id ≡ idle.id =
            ap (λ c. c.id) marked ∙ (set_available_lem idle false w).0 in
          let apart : Distinct cs =
            subst Distinct (sym rest)
              (Distinct-replace before after idle con id_eq (subst Distinct split d)) in
          let absent = (Distinct-middle before after con (subst Distinct rest apart)).0 in
          let found : find_id con.id cs ≡ some con =
            ap (find_id con.id) rest ∙ find_id-append before after con absent in
          let Q = record P { pool = cs } in
          let taken =
            step_to (looking size (suc k)) P w (pinging size (suc k) con.id, Q, w)
              (look_step size k P w ∙ look-some_step size (suc k) P w con cs e) r in
          elim (Bool-cases (ping con w).0) [
            | inl up ↦
                subst (λ o. Runs S (returned o)) (sym (acquire_alive env k size P w con cs e up))
                  (step_to (pinging size (suc k) con.id) Q w (holding con.id, Q, (ping con w).1)
                    (ping_step size (suc k) con.id Q w con found ∙ rw up refl) taken)
            | inr down ↦
                let w' = (ping con w).1 in
                let left = remove_id con.id cs in
                let removed =
                  step_to (removing size (suc k) con.id) Q w'
                    (freeing (length left) k con, record P { pool = left }, w')
                    (remove_step size k con.id Q w' con found)
                    (step_to (pinging size (suc k) con.id) Q w (removing size (suc k) con.id, Q, w')
                      (ping_step size (suc k) con.id Q w con found ∙ rw down refl) taken) in
                let left_apart : Distinct left =
                  subst Distinct
                    (sym (ap (remove_id con.id) rest ∙ remove_id-append before after con absent))
                    (Distinct-remove before after con (subst Distinct rest apart)) in
                subst (λ o. Runs S (returned o)) (sym (acquire_dead env k size P w con cs e down))
                  (looking-Runs k (length left) (record P { pool = left }) (free con w') left_apart
                    (step_to (freeing (length left) k con) (record P { pool = left }) w'
                      (looking (length left) k, record P { pool = left }, free con w')
                      (free_step (length left) k con (record P { pool = left }) w') removed))
          ]
    ]

  -- Where the connections of the pool are at different addresses, the steps of `_getConnection`, one
  -- after the other with nothing between them, come to what the call is that is done at once: the
  -- client has the same connection, or none, and the pool and the world are the same.
  pub get_connection-Runs :
      (P : ConnectionPool s) (w : s.World)
      → Distinct P.pool
      → Runs (outside, P, w) (returned (get_connection env P w))
  unfolding get_connection
  get_connection-Runs P w d =
      looking-Runs (outside, P, w) (length P.pool - count_active P.pool) (length P.pool) P w d
        (step_to (outside, P, w) outside P w
          (looking (length P.pool) (length P.pool - count_active P.pool), P, w)
          (unfold advance begin_get in refl) begins)
