-- ===== src/Exceptions/Refinement.antt =====
-- The stack of frames does what the blocks mean.
use libzdb.Prelude.{
  drop, true, List, [], ◌∷◌, Option, some, none, Text, ◌==◌, if◌then◌else◌, ◌≡◌, refl, sym, subst,
  Bool-cases, inl, inr, length, arith,
}
use libzdb.Exceptions.{
  Origin, Frame, Flag, entered, thrown, handled, finalized, finalize, Code, act, throws, rethrow,
  seq, try_end, Clauses, no_clause, otherwise, catch, Ending, end_try, finally, Control, done,
  jumped, aborted, throw, finish, fresh, on_done, on_body, exec, exec_clauses, exec_ending,
}
use libzdb.Exceptions.Meaning.{Raised, unless_raised, when_raised, mean, mean_clauses, mean_ending}

-- What is pending under a flag.
abbrev pending : Flag → Origin → Option Origin
pending thrown e = some e
pending entered e = none
pending handled e = none
pending finalized e = none

finalize-pending : (flag : Flag) (e : Origin) → pending (finalize flag) e ≡ pending flag e
finalize-pending thrown e = refl
finalize-pending entered e = refl
finalize-pending handled e = refl
finalize-pending finalized e = refl

module _ {W : Type 0} where
  -- Code that finishes leaves the stack as it was; code that raises an exception jumps to the innermost
  -- frame, which is then off the stack, and aborts where there is none.
  abbrev pub Agrees : Raised W → List Frame → Control W → Type 0
  Agrees (none, w) stack c = c ≡ done stack w
  Agrees (some e, w) [] c = c ≡ aborted e.exception w
  Agrees (some e, w) (f ∷ stack) c =
      (message : Text) × (c ≡ jumped (record { origin = e; message = message }) stack w)

  on_done-Agrees :
      (r : Raised W) (rest : W → Raised W) (stack : List Frame) (c : Control W)
      (more : List Frame → W → Control W)
      → Agrees r stack c
      → ((w : W) → Agrees (rest w) stack (more stack w))
      → Agrees (unless_raised r rest) stack (on_done c more)
  unfolding on_done
  on_done-Agrees (none, w) rest stack c more a b = rw a (b w)
  on_done-Agrees (some e, w) rest [] c more a b = rw a refl
  on_done-Agrees (some e, w) rest (f ∷ stack) c more (message, a) b = (message, rw a refl)

  throw-Agrees :
      (e : Origin) (cause : Option Text) (stack : List Frame) (w : W)
      → Agrees (some e, w) stack (throw e cause stack w)
  unfolding throw
  throw-Agrees e cause [] w = refl
  throw-Agrees e cause (f ∷ stack) w = (_, refl)

  finish-Agrees :
      (flag : Flag) (f : Frame) (stack : List Frame) (w : W)
      → Agrees (pending flag f.origin, w) stack (finish flag f stack w)
  unfolding finish
  finish-Agrees thrown f stack w = throw-Agrees f.origin none stack w
  finish-Agrees entered f stack w = refl
  finish-Agrees handled f stack w = refl
  finish-Agrees finalized f stack w = refl

pub same_length : {A : Type 0} (xs : List A) → (length xs == length xs) ≡ true
same_length xs = ground arith

module _ {W : Type 0} (unset : Origin) where
  abbrev ClausesAgree : Clauses W → Type 0
  ClausesAgree clauses =
      (f : Frame) (stack : List Frame) (w : W)
      → ((if (mean_clauses unset clauses f.origin w).0 then none else some f.origin)
          ≡ pending (exec_clauses unset clauses f stack w).0 f.origin)
        × Agrees (mean_clauses unset clauses f.origin w).1 stack
            (exec_clauses unset clauses f stack w).1

  abbrev EndingAgrees : Ending W → Type 0
  EndingAgrees ending =
      (flag : Flag) (f : Frame) (stack : List Frame) (w : W)
      → Agrees (mean_ending unset ending (pending flag f.origin) f.origin w) stack
          (exec_ending unset ending flag f stack w)

  -- What follows the body of a block.
  abbrev after_meaning : Clauses W → Ending W → Raised W → Raised W
  after_meaning clauses ending r =
      when_raised r (λ w. mean_ending unset ending none unset w)
        (λ e w. unless_raised (mean_clauses unset clauses e w).1 (λ w'.
          mean_ending unset ending (if (mean_clauses unset clauses e w).0 then none else some e) e
            w'))

  abbrev after_control : Clauses W → Ending W → List Frame → Control W → Control W
  after_control clauses ending stack c =
      on_body c (λ S w. exec_ending unset ending entered (fresh unset) (drop 1 S) w)
        (λ f S w.
          if length S == length stack
          then on_done (exec_clauses unset clauses f S w).1
              (λ S' w'. exec_ending unset ending (exec_clauses unset clauses f S w).0 f S' w')
          else jumped f S w)

  block-Agrees :
      (clauses : Clauses W) (ending : Ending W)
      → ClausesAgree clauses
      → EndingAgrees ending
      → (stack : List Frame) (r : Raised W) (c : Control W) → Agrees r (fresh unset ∷ stack) c
      → Agrees (after_meaning clauses ending r) stack (after_control clauses ending stack c)
  unfolding on_body
  block-Agrees clauses ending caught ended stack (none, w) c a =
      rw a (ended entered (fresh unset) stack w)
  block-Agrees clauses ending caught ended stack (some e, w) c (message, a) =
      let f : Frame = record { origin = e; message = message } in
      let (same, own) = caught f stack w in
      rw (a, same_length stack)
        (on_done-Agrees (mean_clauses unset clauses e w).1 _ stack
          (exec_clauses unset clauses f stack w).1 _ own
          (λ w'.
            subst
              (λ o.
                Agrees (mean_ending unset ending o e w') stack
                  (exec_ending unset ending (exec_clauses unset clauses f stack w).0 f stack w'))
              (sym same) (ended (exec_clauses unset clauses f stack w).0 f stack w')))

  mutual
    unfolding exec mean exec_clauses mean_clauses exec_ending mean_ending

    code-Agrees :
        (p : Code W) (here : Frame) (stack : List Frame) (w : W)
        → Agrees (mean unset p here.origin w) stack (exec unset p here stack w)
    code-Agrees (act f) here stack w = refl
    code-Agrees (throws o cause) here stack w = throw-Agrees o cause stack w
    code-Agrees rethrow here stack w = throw-Agrees here.origin none stack w
    code-Agrees (seq p q) here stack w =
        on_done-Agrees (mean unset p here.origin w) (λ w'. mean unset q here.origin w') stack
          (exec unset p here stack w) (λ S w'. exec unset q here S w') (code-Agrees p here stack w)
          (λ w'. code-Agrees q here stack w')
    code-Agrees (try_end p clauses ending) here stack w =
        block-Agrees clauses ending (clauses_agree clauses) (ending-Agrees ending) stack _ _
          (code-Agrees p (fresh unset) (fresh unset ∷ stack) w)

    clauses_agree :
        (clauses : Clauses W) (f : Frame) (stack : List Frame) (w : W)
        → ((if (mean_clauses unset clauses f.origin w).0 then none else some f.origin)
            ≡ pending (exec_clauses unset clauses f stack w).0 f.origin)
          × Agrees
              (mean_clauses unset clauses f.origin w).1
              stack
              (exec_clauses unset clauses f stack w).1
    clauses_agree no_clause f stack w = (refl, refl)
    clauses_agree (otherwise p) f stack w = (refl, code-Agrees p f stack w)
    clauses_agree (catch k p clauses) f stack w = elim (Bool-cases (f.origin.exception == k)) [
      | inl e ↦ rw e (refl, code-Agrees p f stack w)
      | inr e ↦ rw e (clauses_agree clauses f stack w)
    ]

    ending-Agrees :
        (ending : Ending W) (flag : Flag) (f : Frame) (stack : List Frame) (w : W)
        → Agrees
            (mean_ending unset ending (pending flag f.origin) f.origin w)
            stack
            (exec_ending unset ending flag f stack w)
    ending-Agrees end_try flag f stack w = finish-Agrees flag f stack w
    ending-Agrees (finally p) flag f stack w =
        on_done-Agrees (mean unset p f.origin w) (λ w'. (pending flag f.origin, w')) stack
          (exec unset p f stack w) (λ S w'. finish (finalize flag) f S w') (code-Agrees p f stack w)
          (λ w'.
            subst (λ o. Agrees (o, w') stack (finish (finalize flag) f stack w'))
              (finalize-pending flag f.origin) (finish-Agrees (finalize flag) f stack w'))

  -- With any frames of other blocks on the stack, the code finishes where the meaning of its blocks
  -- finishes, with the stack as it was; where the meaning is that it raises an exception, the
  -- code jumps to the innermost frame with that exception in it, or aborts where there is no
  -- frame.
  pub exec-Agrees :
      (p : Code W) (here : Frame) (stack : List Frame) (w : W)
      → Agrees (mean unset p here.origin w) stack (exec unset p here stack w)
  exec-Agrees p here stack w = code-Agrees p here stack w
