-- ===== src/Db/Oracle/Watchdog.antt =====
-- The thread that the macro WATCHDOG of src/db/oracle/OracleAdapter.h makes, and how a statement starts and
-- stops its count. A round of the thread is taken as one step.
use libzdb.Prelude.{ℕ, zero, suc, ◌+◌, Bool, true, false, if◌then◌else◌}
use libzdb.Prelude.Int.{ℤ, pos, ◌-ℤ◌, ltb_ℤ}
pub mod Once

-- The fields `timeout`, `countdown` and `running`, which the delegates of a connection and of a prepared
-- statement have both.
pub record Timer : Type 0 where
  pub timeout : ℤ
  pub countdown : ℤ
  pub running : Bool

-- The body of the loop: whether the statement is broken off, and the fields.
unfoldable pub round : Timer → Bool × Timer
round S =
    if S.running
    then if ltb_ℤ (pos 0) S.countdown
      then (false, record S { countdown = S.countdown -ℤ pos 10 })
      else (true, record S { running = false })
    else (false, S)

-- A number of rounds: how many times they break off the statement.
unfoldable pub rounds : ℕ → Timer → ℕ × Timer
unfolding round
rounds zero S = (0, S)
rounds (suc n) S =
    let (broke, after) = round S in
    let (breaks, last) = rounds n after in (if broke then suc breaks else breaks, last)

-- Before a statement is executed.
unfoldable pub arm : Timer → Timer
arm S = if ltb_ℤ (pos 0) S.timeout then record S { countdown = S.timeout; running = true } else S

-- And after it.
unfoldable pub disarm : Timer → Timer
disarm S = record S { running = false }
