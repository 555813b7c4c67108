-- ===== src/Exceptions/Meaning.antt =====
-- What the blocks of src/exceptions/Exception.h come to, without frames and jumps: code finishes or raises an
-- exception. A clause that raises leaves its block at once, so that the FINALLY part behind it does not
-- run; the documentation has another meaning, which is in Documented.
use libzdb.Prelude.{Bool, true, false, Option, some, none, ◌==◌, if◌then◌else◌}
use libzdb.Exceptions.{
  Origin, Code, act, throws, rethrow, seq, try_end, Clauses, no_clause, otherwise, catch, Ending,
  end_try, finally,
}

-- The exception that is raised, if one is.
abbrev pub Raised : Type 0 → Type 0
Raised W = Option Origin × W

abbrev pub unless_raised : {W : Type 0} → Raised W → (W → Raised W) → Raised W
unless_raised (none, w) rest = rest w
unless_raised (some e, w) rest = (some e, w)

abbrev pub when_raised :
    {W : Type 0} → Raised W → (W → Raised W) → (Origin → W → Raised W) → Raised W
when_raised (none, w) ends caught = ends w
when_raised (some e, w) ends caught = caught e w

module _ {W : Type 0} (unset : Origin) where
  unfoldable mutual
    -- The second argument is the exception of the clause that the code stands in.
    pub mean : Code W → Origin → W → Raised W
    mean (act f) here w = (none, f w)
    mean (throws o cause) here w = (some o, w)
    mean rethrow here w = (some here, w)
    mean (seq p q) here w = unless_raised (mean p here w) (λ w'. mean q here w')
    mean (try_end p clauses ending) here w =
        when_raised (mean p unset w) (λ w'. mean_ending ending none unset w')
          (λ e w'.
            let (handled, r) = mean_clauses clauses e w' in
            unless_raised r (λ w''. mean_ending ending (if handled then none else some e) e w''))

    -- Whether a clause is for the exception, and what it comes to.
    pub mean_clauses : Clauses W → Origin → W → Bool × Raised W
    mean_clauses no_clause e w = (false, (none, w))
    mean_clauses (otherwise p) e w = (true, mean p e w)
    mean_clauses (catch k p clauses) e w =
        let others = mean_clauses clauses e w in
        let own = mean p e w in if e.exception == k then (true, own) else others

    -- The end of a block, given the exception that is still raised.
    pub mean_ending : Ending W → Option Origin → Origin → W → Raised W
    mean_ending end_try pending here w = (pending, w)
    mean_ending (finally p) pending here w = unless_raised (mean p here w) (λ w'. (pending, w'))
