-- ===== src/Zdbpp/Wrapper/Leaving.antt =====
-- What becomes of an exception of the library in a function of the interface.
use libzdb.Prelude.{List, [], ◌∷◌, some, none, Text, ◌≡◌, refl}
use libzdb.Exceptions.{Origin, Frame, Code, Control, fresh, exec, exec_return}
use libzdb.Exceptions.Meaning.{Raised, mean}
use libzdb.Exceptions.Refinement.{Agrees, exec-Agrees, same_length}
use libzdb.Zdbpp.Wrapper.{
  Leaves, returns, throws, jumps, aborts, leave, leave_return, except_wrapper,
  except_wrapper_return,
}

module _ {W : Type 0} where
  -- What the first form comes to.
  abbrev pub Throws : Raised W → List Frame → Leaves W → Type 0
  Throws (none, w) stack l = l ≡ returns stack w
  Throws (some e, w) stack l = (message : Text) × (l ≡ throws message stack w)

  -- And the second.
  abbrev pub Escapes : Raised W → List Frame → Leaves W → Type 0
  Escapes (none, w) stack l = l ≡ returns stack w
  Escapes (some e, w) [] l = l ≡ aborts e.exception w
  Escapes (some e, w) (f ∷ stack) l =
      (message : Text) × (l ≡ jumps (record { origin = e; message = message }) stack w)

  leave-Throws :
      (r : Raised W) (stack : List Frame) (f : Frame) (c : Control W)
      → Agrees r (f ∷ stack) c
      → Throws r stack (leave stack c)
  unfolding leave
  leave-Throws (none, w) stack f c e = rw e refl
  leave-Throws (some x, w) stack f c (message, e) = (message, rw (e, same_length stack) refl)

  leave_return-Escapes :
      (r : Raised W) (stack : List Frame) (c : Control W)
      → Agrees r stack c
      → Escapes r stack (leave_return c)
  unfolding leave_return
  leave_return-Escapes (none, w) stack c e = rw e refl
  leave_return-Escapes (some x, w) [] c e = rw e refl
  leave_return-Escapes (some x, w) (f ∷ stack) c (message, e) = (message, rw e refl)

module _ {W : Type 0} (unset : Origin) where
  -- With any blocks of the library around the call, where the code that is wrapped finishes, both forms of
  -- the macro return and leave the stack of frames as it was. Where it raises an exception of the library,
  -- the form for statements throws the exception of C++ and leaves the stack as it was; the form with
  -- RETURN does not: the exception jumps to the innermost block around the call, past the function, and
  -- where there is no such block the process ends.
  pub except_wrapper-except_wrapper_return :
      (p : Code W) (stack : List Frame) (w : W)
      → Throws (mean unset p unset w) stack (except_wrapper unset p stack w)
        × Escapes (mean unset p unset w) stack (except_wrapper_return unset p stack w)
  unfolding except_wrapper except_wrapper_return exec_return
  except_wrapper-except_wrapper_return p stack w = (
    leave-Throws (mean unset p unset w) stack (fresh unset)
        (exec unset p (fresh unset) (fresh unset ∷ stack) w)
        (exec-Agrees unset p (fresh unset) (fresh unset ∷ stack) w),
    leave_return-Escapes (mean unset p unset w) stack (exec unset p (fresh unset) stack w)
        (exec-Agrees unset p (fresh unset) stack w),
  )
