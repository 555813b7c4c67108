-- ===== src/Zdbpp/Wrapper.antt =====
-- How the functions of src/zdbpp.h call those of the library: the macro `except_wrapper`, on the stack of
-- frames of src/exceptions/Exception.h, and what it comes to for a function of the library.
pub mod Leaving
use libzdb.Prelude.{
  ℕ, Bool, true, false, List, ◌∷◌, ◌==◌, ◌&&◌, ◌||◌, if◌then◌else◌, Text, drop, length, Result, ok,
  err, Exception, ltb, leb,
}
use libzdb.Exceptions.{
  Origin, Frame, Code, Control, done, jumped, aborted, fresh, exec, exec_return,
}

-- How control leaves a function of the interface: it returns, or throws `zdb::sql_exception` with a message,
-- or an exception of the library jumps to a block around the call, or ends the process.
pub data Leaves (W : Type 0) : Type 0 where
  returns : List Frame → W → Leaves W
  throws : Text → List Frame → W → Leaves W
  jumps : Frame → List Frame → W → Leaves W
  aborts : ℕ → W → Leaves W

module _ {W : Type 0} where
  -- Behind the body of the block of `except_wrapper`.
  pub leave : List Frame → Control W → Leaves W
  leave stack (done S w) = returns (drop 1 S) w
  leave stack (jumped f S w) =
      if length S == length stack then throws f.message S w else jumps f S w
  leave stack (aborted e w) = aborts e w

  -- What is evaluated behind the macro RETURN, which takes the frame off the stack before.
  pub leave_return : Control W → Leaves W
  leave_return (done S w) = returns S w
  leave_return (jumped f S w) = jumps f S w
  leave_return (aborted e w) = aborts e w

module _ {W : Type 0} (unset : Origin) where
  -- `except_wrapper(f)` for statements.
  pub except_wrapper : Code W → List Frame → W → Leaves W
  unfolding leave
  except_wrapper p stack w = leave stack (exec unset p (fresh unset) (fresh unset ∷ stack) w)

  -- `except_wrapper(RETURN f)`
  pub except_wrapper_return : Code W → List Frame → W → Leaves W
  unfolding leave_return exec_return
  except_wrapper_return p stack w = leave_return (exec_return unset p (fresh unset ∷ stack) w)

-- What a function of the interface comes to where no block of the library is around the call. What ends the
-- process is `ended`.
pub data Cpp (A : Type 0) : Type 0 where
  returned : A → Cpp A
  threw : Exception → Cpp A
  said : Text → Cpp A
  ended : Exception → Cpp A

-- `except_wrapper(f)`
unfoldable pub wrap : {A : Type 0} → Result A → Cpp A
wrap (ok a) = returned a
wrap (err e) = threw e

-- `except_wrapper(RETURN f)`, and a call without the macro.
unfoldable pub wrap_return : {A : Type 0} → Result A → Cpp A
wrap_return (ok a) = returned a
wrap_return (err e) = ended e
