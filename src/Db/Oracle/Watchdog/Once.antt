-- ===== src/Db/Oracle/Watchdog/Once.antt =====
-- How often and when the watchdog breaks off a statement.
use libzdb.Prelude.{
  ℕ, zero, suc, ◌+◌, ◌*◌, ◌≤◌, ◌<◌, ◌≡◌, refl, ap, ◌∙◌, Bool, true, false, arith, inl, inr,
  Bool-cases,
}
use libzdb.Prelude.Int.{ℤ, pos, ltb_ℤ, ◌-ℤ◌, pos_part, neg_part, -ℤ_parts}
use libzdb.Db.Oracle.Watchdog.{Timer, rounds, arm}

abbrev timer : ℤ → ℤ → Bool → Timer
timer t z b = record { timeout = t; countdown = z; running = b }

rounds_idle : (n : ℕ) (t z : ℤ) → rounds n (timer t z false) ≡ (0, timer t z false)
unfolding rounds
rounds_idle zero t z = refl
rounds_idle (suc n) t z = rounds_idle n t z

-- What a number of rounds come to.
abbrev pub Broke : ℕ → Bool → ℕ × Timer → Type 0
Broke breaks running r = (r.0 ≡ breaks) × (r.1.running ≡ running)

rounds_none : (S : Timer) → Broke 0 S.running (rounds 0 S)
unfolding rounds
rounds_none S = (refl, refl)

rounds_on :
    (n : ℕ) (t z : ℤ)
    → ltb_ℤ (pos 0) z ≡ true
    → rounds (suc n) (timer t z true) ≡ rounds n (timer t (z -ℤ pos 10) true)
unfolding rounds
rounds_on n t z e = rw e refl

rounds_off :
    (n : ℕ) (t z : ℤ)
    → ltb_ℤ (pos 0) z ≡ false
    → rounds (suc n) (timer t z true) ≡ (1, timer t z false)
unfolding rounds
rounds_off n t z e = rw (e, rounds_idle n t z) refl

rounds_early :
    (n : ℕ) (t z : ℤ)
    → n * 10 + neg_part z < pos_part z + 10
    → Broke 0 true (rounds n (timer t z true))
rounds_early zero t z h = rounds_none (timer t z true)
rounds_early (suc n) t z h =
    rw (rounds_on n t z (ground arith))
      (rounds_early n t (z -ℤ pos 10) (omega (arith, -ℤ_parts z (pos 10))))

rounds_late :
    (n : ℕ) (t z : ℤ)
    → pos_part z + 10 ≤ n * 10 + neg_part z
    → neg_part z < 10
    → Broke 1 false (rounds n (timer t z true))
rounds_late zero t z h k = absurd (ground arith)
rounds_late (suc n) t z h k = elim (Bool-cases (ltb_ℤ (pos 0) z)) [
  | inr e ↦ rw (rounds_off n t z e) (refl, refl)
  | inl e ↦ rw (rounds_on n t z e) (
      rounds_late n t (z -ℤ pos 10) (omega (arith, -ℤ_parts z (pos 10)))
        (ground (arith, -ℤ_parts z (pos 10))))
]

arm_lem : (t z : ℤ) (b : Bool) → ltb_ℤ (pos 0) t ≡ true → arm (timer t z b) ≡ timer t t true
unfolding arm
arm_lem t z b e = rw e refl

-- Where a statement has a timeout, which is more than 0, the watchdog does not break it off before as many
-- rounds as the timeout has tenths, rounded up, and one more, and then does so once, however long the
-- statement still runs.
pub rounds-arm :
    (n most : ℕ) (S : Timer)
    → S.timeout ≡ pos most
    → 0 < most
    → (n * 10 < most + 10 → Broke 0 true (rounds n (arm S)))
      × (most + 10 ≤ n * 10 → Broke 1 false (rounds n (arm S)))
rounds-arm n most S e some =
    let armed : arm S ≡ timer (pos most) (pos most) true =
      arm_lem S.timeout S.countdown S.running (rw e (ground arith)) ∙ ap (λ t. timer t t true) e in
    rw armed (
      λ h. rounds_early n (pos most) (pos most) (omega arith),
      λ h. rounds_late n (pos most) (pos most) (omega arith) (omega arith),
    )
