-- ===== src/Exceptions/Documented.antt =====
-- What the documentation of src/exceptions/Exception.h says of FINALLY: it is always executed, regardless if
-- an exception was raised or not. The macros leave a block at once where one of its clauses raises.
use libzdb.Prelude.{
  ◌≡◌, refl, ap, ◌∙◌, Bool, List, Option, some, none, ◌==◌, if◌then◌else◌, ◌⊎◌, inl, inr, true,
  false, Bool-cases,
}
use libzdb.Exceptions.{
  Origin, Frame, Code, act, throws, rethrow, seq, try_end, Clauses, no_clause, otherwise, catch,
  Ending, end_try, finally, exec,
}
use libzdb.Exceptions.Meaning.{Raised, unless_raised, when_raised, mean, mean_clauses, mean_ending}
use libzdb.Exceptions.Refinement.{Agrees, exec-Agrees}

module _ {W : Type 0} (unset : Origin) where
  unfoldable mutual
    -- The blocks as they are documented: the FINALLY part runs whatever came before it.
    pub documented : Code W → Origin → W → Raised W
    documented (act f) here w = (none, f w)
    documented (throws o cause) here w = (some o, w)
    documented rethrow here w = (some here, w)
    documented (seq p q) here w = unless_raised (documented p here w) (λ w'. documented q here w')
    documented (try_end p clauses ending) here w =
        when_raised (documented p unset w) (λ w'. documented_ending ending none unset w')
          (λ e w'.
            let (handled, r) = documented_clauses clauses e w' in
            when_raised r (λ w''. documented_ending ending (if handled then none else some e) e w'')
              (λ e' w''. documented_ending ending (some e') e w''))

    pub documented_clauses : Clauses W → Origin → W → Bool × Raised W
    documented_clauses no_clause e w = (false, (none, w))
    documented_clauses (otherwise p) e w = (true, documented p e w)
    documented_clauses (catch k p clauses) e w =
        let others = documented_clauses clauses e w in
        let own = documented p e w in if e.exception == k then (true, own) else others

    pub documented_ending : Ending W → Option Origin → Origin → W → Raised W
    documented_ending end_try pending here w = (pending, w)
    documented_ending (finally p) pending here w =
        unless_raised (documented p here w) (λ w'. (pending, w'))

  abbrev HasFinally : Ending W → Type 0
  HasFinally end_try = ⊥
  HasFinally (finally p) = Unit {0}

  abbrev WhenDone : Raised W → (W → Type 0) → (Origin → W → Type 0) → Type 0
  WhenDone (none, w) P Q = P w
  WhenDone (some e, w) P Q = Q e w

  unfoldable mutual
    -- In the run of the code a clause raises an exception in a block that has a FINALLY part.
    pub Skips : Code W → Origin → W → Type 0
    Skips (act f) here w = ⊥
    Skips (throws o cause) here w = ⊥
    Skips rethrow here w = ⊥
    Skips (seq p q) here w =
        Skips p here w ⊎ WhenDone (mean unset p here w) (λ w'. Skips q here w') (λ e w'. ⊥)
    Skips (try_end p clauses ending) here w =
        Skips p unset w
        ⊎ WhenDone (mean unset p unset w) (λ w'. SkipsEnding ending unset w')
            (λ e w'.
              SkipsClauses clauses e w'
              ⊎ WhenDone (mean_clauses unset clauses e w').1 (λ w''. SkipsEnding ending e w'')
                  (λ e' w''. HasFinally ending))

    pub SkipsClauses : Clauses W → Origin → W → Type 0
    SkipsClauses no_clause e w = ⊥
    SkipsClauses (otherwise p) e w = Skips p e w
    SkipsClauses (catch k p clauses) e w =
        let others = SkipsClauses clauses e w in
        let own = Skips p e w in if e.exception == k then own else others

    pub SkipsEnding : Ending W → Origin → W → Type 0
    SkipsEnding end_try here w = ⊥
    SkipsEnding (finally p) here w = Skips p here w

  then_agrees :
      (A : Type 0) (S : W → Type 0) (f g : W → Raised W) (d r : Raised W)
      → d ≡ r
      → ((w : W) → S w ⊎ (f w ≡ g w))
      → (A ⊎ WhenDone r S (λ e w. ⊥)) ⊎ (unless_raised d f ≡ unless_raised r g)
  then_agrees A S f g d (none, w) same h = elim (h w) [
    | inl skipped ↦ inl (inr skipped)
    | inr e ↦ inr (ap (λ d. unless_raised d f) same ∙ e)
  ]
  then_agrees A S f g d (some e, w) same h = inr (ap (λ d. unless_raised d f) same)

  abbrev EndingDocumented : Ending W → Type 0
  EndingDocumented ending =
      (pending : Option Origin) (here : Origin) (w : W)
      → SkipsEnding ending here w
        ⊎ (documented_ending ending pending here w ≡ mean_ending unset ending pending here w)

  -- What follows the clauses of a block.
  clauses_end :
      (ending : Ending W)
      → EndingDocumented ending
      → (e : Origin) (pending : Option Origin) (r : Raised W)
      → WhenDone r (λ w. SkipsEnding ending e w) (λ e' w. HasFinally ending)
        ⊎ (when_raised r
              (λ w. documented_ending ending pending e w)
              (λ e' w. documented_ending ending (some e') e w)
            ≡ unless_raised r (λ w. mean_ending unset ending pending e w))
  unfolding documented_ending mean_ending
  clauses_end ending h e pending (none, w) = h pending e w
  clauses_end end_try h e pending (some e', w) = inr refl
  clauses_end (finally p) h e pending (some e', w) = inl tt

  abbrev documented_after : Clauses W → Ending W → Raised W → Raised W
  documented_after clauses ending r =
      when_raised r (λ w. documented_ending ending none unset w)
        (λ e w.
          when_raised (documented_clauses clauses e w).1
            (λ w'.
              documented_ending ending (if (documented_clauses clauses e w).0 then none else some e)
                e w')
            (λ e' w'. documented_ending ending (some e') e w'))

  abbrev mean_after : Clauses W → Ending W → Raised W → Raised W
  mean_after clauses ending r =
      when_raised r (λ w. mean_ending unset ending none unset w)
        (λ e w. unless_raised (mean_clauses unset clauses e w).1 (λ w'.
          mean_ending unset ending (if (mean_clauses unset clauses e w).0 then none else some e) e
            w'))

  -- What follows the body of a block.
  block_end :
      (clauses : Clauses W) (ending : Ending W)
      → ((e : Origin) (w : W)
          → SkipsClauses clauses e w
            ⊎ (documented_clauses clauses e w ≡ mean_clauses unset clauses e w))
      → EndingDocumented ending
      → (A : Type 0) (r : Raised W)
      → (A
          ⊎ WhenDone r
              (λ w. SkipsEnding ending unset w)
              (λ e w.
                SkipsClauses clauses e w
                ⊎ WhenDone
                    (mean_clauses unset clauses e w).1
                    (λ w'. SkipsEnding ending e w')
                    (λ e' w'. HasFinally ending)))
        ⊎ (documented_after clauses ending r ≡ mean_after clauses ending r)
  block_end clauses ending caught ended A (none, w) = elim (ended none unset w) [
    | inl skipped ↦ inl (inr skipped)
    | inr same ↦ inr same
  ]
  block_end clauses ending caught ended A (some e, w) = elim (caught e w) [
    | inl skipped ↦ inl (inr (inl skipped))
    | inr same ↦
        let m = mean_clauses unset clauses e w in
        let after = λ (c : Bool × Raised W).
          when_raised c.1 (λ w'. documented_ending ending (if c.0 then none else some e) e w')
            (λ e' w'. documented_ending ending (some e') e w') in
        elim (clauses_end ending ended e (if m.0 then none else some e) m.1) [
          | inl skipped ↦ inl (inr (inr skipped))
          | inr equal ↦ inr (ap after same ∙ equal)
        ]
  ]

  mutual
    unfolding documented documented_clauses documented_ending mean mean_clauses mean_ending Skips
        SkipsClauses SkipsEnding

    code_documented :
        (p : Code W) (here : Origin) (w : W)
        → Skips p here w ⊎ (documented p here w ≡ mean unset p here w)
    code_documented (act f) here w = inr refl
    code_documented (throws o cause) here w = inr refl
    code_documented rethrow here w = inr refl
    code_documented (seq p q) here w = elim (code_documented p here w) [
      | inl skipped ↦ inl (inl skipped)
      | inr same ↦
          then_agrees (Skips p here w) (λ w'. Skips q here w') (λ w'. documented q here w')
            (λ w'. mean unset q here w') (documented p here w) (mean unset p here w) same
            (λ w'. code_documented q here w')
    ]
    code_documented (try_end p clauses ending) here w = elim (code_documented p unset w) [
      | inl skipped ↦ inl (inl skipped)
      | inr same ↦
          elim (block_end clauses ending (clauses_documented clauses) (ending_documented ending)
            (Skips p unset w) (mean unset p unset w)) [
              | inl skipped ↦ inl skipped
              | inr equal ↦ inr (ap (documented_after clauses ending) same ∙ equal)
            ]
    ]

    clauses_documented :
        (clauses : Clauses W) (e : Origin) (w : W)
        → SkipsClauses clauses e w
          ⊎ (documented_clauses clauses e w ≡ mean_clauses unset clauses e w)
    clauses_documented no_clause e w = inr refl
    clauses_documented (otherwise p) e w = elim (code_documented p e w) [
      | inl skipped ↦ inl skipped
      | inr same ↦ inr (ap (λ r. (true, r)) same)
    ]
    clauses_documented (catch k p clauses) e w = elim (Bool-cases (e.exception == k)) [
      | inl hit ↦ rw hit (elim (code_documented p e w) [
        | inl skipped ↦ inl skipped
        | inr same ↦ inr (ap (λ r. (true, r)) same)
      ])
      | inr miss ↦ rw miss (clauses_documented clauses e w)
    ]

    ending_documented :
        (ending : Ending W) (pending : Option Origin) (here : Origin) (w : W)
        → SkipsEnding ending here w
          ⊎ (documented_ending ending pending here w ≡ mean_ending unset ending pending here w)
    ending_documented end_try pending here w = inr refl
    ending_documented (finally p) pending here w = elim (code_documented p here w) [
      | inl skipped ↦ inl skipped
      | inr same ↦ inr (ap (λ r. unless_raised r (λ w'. (pending, w'))) same)
    ]

  -- With any frames of other blocks on the stack, the code finishes where the meaning of its blocks
  -- finishes, with the stack as it was; where the meaning is that it raises an exception, the code
  -- jumps to the innermost frame with that exception in it, or aborts where there is no frame. This
  -- meaning is the documented one, by which FINALLY is always executed, unless in the run of the code
  -- a clause raises an exception in a block that has a FINALLY part.
  pub exec-documented :
      (p : Code W) (here : Frame) (stack : List Frame) (w : W)
      → Agrees (mean unset p here.origin w) stack (exec unset p here stack w)
        × (Skips p here.origin w ⊎ (documented p here.origin w ≡ mean unset p here.origin w))
  exec-documented p here stack w =
      (exec-Agrees unset p here stack w, code_documented p here.origin w)
