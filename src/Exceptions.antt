-- ===== src/Exceptions.antt =====
-- src/exceptions/Exception.h and src/exceptions/Exception.c: the stack of frames of a thread, which TRY
-- pushes and THROW pops, and the blocks that the macros make.
pub mod Meaning
pub mod Refinement
pub mod Messages
pub mod Documented
mod Tests
use libzdb.Prelude.{
  ℕ, ◌-◌, Bool, true, false, List, [], ◌∷◌, Option, some, none, Text, ◌==◌, if◌then◌else◌, take,
  drop, length,
}

-- Which exception was thrown, by the address of its `Exception_T`, and where.
pub record Origin : Type 0 where
  pub exception : ℕ
  pub func : Text
  pub file : Text
  pub line : ℕ

-- `struct Exception_Frame`; the frames of a thread are a list, the innermost first.
pub record Frame : Type 0 where
  pub origin : Origin
  pub message : Text

-- EXCEPTION_MESSAGE_LENGTH
abbrev message_length : ℕ
message_length = 512

-- `Exception_flag`
pub data Flag : Type 0 where
  entered thrown handled finalized : Flag

mutual
  -- What stands in a function: statements that do not throw, THROW, RETHROW, one after the other, and
  -- blocks.
  pub data Code (W : Type 0) : Type 0 where
    act : (W → W) → Code W
    throws : Origin → Option Text → Code W
    rethrow : Code W
    seq : Code W → Code W → Code W
    try_end : Code W → Clauses W → Ending W → Code W

  -- The CATCH clauses of a block, with an ELSE clause at the end or without.
  pub data Clauses (W : Type 0) : Type 0 where
    no_clause : Clauses W
    otherwise : Code W → Clauses W
    catch : ℕ → Code W → Clauses W → Clauses W

  pub data Ending (W : Type 0) : Type 0 where
    end_try : Ending W
    finally : Code W → Ending W

-- Control is behind the code, or at the `setjmp` of the frame that was the innermost, or nowhere.
pub data Control (W : Type 0) : Type 0 where
  done : List Frame → W → Control W
  jumped : Frame → List Frame → W → Control W
  aborted : ℕ → W → Control W

-- `Exception_throw`. Without a cause it leaves the message of the frame.
pub throw : {W : Type 0} → Origin → Option Text → List Frame → W → Control W
throw o cause [] w = aborted o.exception w
throw o cause (f ∷ stack) w =
    let message : Text = elim cause [ none ↦ f.message | some t ↦ take (message_length - 1) t ] in
    jumped (record { origin = o; message = message }) stack w

-- The end of a block, given its flag and its frame.
pub finish : {W : Type 0} → Flag → Frame → List Frame → W → Control W
unfolding throw
finish thrown f stack w = throw f.origin none stack w
finish entered f stack w = done stack w
finish handled f stack w = done stack w
finish finalized f stack w = done stack w

abbrev pub finalize : Flag → Flag
finalize entered = finalized
finalize thrown = thrown
finalize handled = handled
finalize finalized = finalized

-- The frame that TRY pushes: what it says of the exception is not set.
abbrev pub fresh : Origin → Frame
fresh unset = record { origin = unset; message = [] }

-- What stands behind code goes on where the code is done.
pub on_done : {W : Type 0} → Control W → (List Frame → W → Control W) → Control W
on_done (done stack w) rest = rest stack w
on_done (jumped f stack w) rest = jumped f stack w
on_done (aborted e w) rest = aborted e w

-- What follows the body of a block: its end, or its clauses.
pub on_body :
    {W : Type 0}
    → Control W
    → (List Frame → W → Control W)
    → (Frame → List Frame → W → Control W)
    → Control W
on_body (done stack w) ends caught = ends stack w
on_body (jumped f stack w) ends caught = caught f stack w
on_body (aborted e w) ends caught = aborted e w

module _ {W : Type 0} (unset : Origin) where
  mutual
    unfolding throw finish on_done on_body

    -- The code where `here` is the variable `Exception_frame`.
    pub exec : Code W → Frame → List Frame → W → Control W
    exec (act f) here stack w = done stack (f w)
    exec (throws o cause) here stack w = throw o cause stack w
    exec rethrow here stack w = throw here.origin none stack w
    exec (seq p q) here stack w = on_done (exec p here stack w) (λ S w'. exec q here S w')
    exec (try_end p clauses ending) here stack w =
        on_body (exec p (fresh unset) (fresh unset ∷ stack) w)
          (λ S w'. exec_ending ending entered (fresh unset) (drop 1 S) w')
          (λ f S w'.
            -- The jump is to the block whose frame stood on what is left of the stack.
            let (flag, control) = exec_clauses clauses f S w' in
            if length S == length stack
            then on_done control (λ S' w''. exec_ending ending flag f S' w'')
            else jumped f S w')

    -- The flag that the clauses leave, and what the clause for the exception, if there is one, does.
    pub exec_clauses : Clauses W → Frame → List Frame → W → Flag × Control W
    exec_clauses no_clause f stack w = (thrown, done stack w)
    exec_clauses (otherwise p) f stack w = (handled, exec p f stack w)
    exec_clauses (catch e p clauses) f stack w =
        let others = exec_clauses clauses f stack w in
        let own = exec p f stack w in if f.origin.exception == e then (handled, own) else others

    pub exec_ending : Ending W → Flag → Frame → List Frame → W → Control W
    exec_ending end_try flag f stack w = finish flag f stack w
    exec_ending (finally p) flag f stack w =
        on_done (exec p f stack w) (λ S w'. finish (finalize flag) f S w')

  -- RETURN in the body of a block: the frame is taken off the stack before what is returned is evaluated.
  unfoldable pub exec_return : Code W → List Frame → W → Control W
  unfolding exec
  exec_return p stack w = exec p (fresh unset) (drop 1 stack) w

-- `Exception_reset`
pub reset : List Frame → List Frame
reset stack = []
