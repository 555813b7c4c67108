-- ===== src/Exceptions/Messages.antt =====
-- What becomes of the message of an exception that a block passes on.
use libzdb.Prelude.{
  drop, if◌then◌else◌, List, ◌∷◌, some, none, ◌==◌, ◌≡◌, refl, ap, ◌∙◌, subst, length,
}
use libzdb.Exceptions.{
  Origin, Frame, entered, thrown, Code, try_end, no_clause, finally, done, jumped, throw, finish,
  fresh, on_done, on_body, exec, exec_clauses, exec_ending,
}
use libzdb.Exceptions.Meaning.{mean}
use libzdb.Exceptions.Refinement.{Agrees, exec-Agrees, same_length}

module _ {W : Type 0} (unset : Origin) where
  passes :
      (q : Code W) (g f : Frame) (stack : List Frame) (w w' : W)
      → exec unset q g (f ∷ stack) w ≡ done (f ∷ stack) w'
      → exec_ending unset (finally q) thrown g (f ∷ stack) w
        ≡ jumped (record { origin = g.origin; message = f.message }) stack w'
  unfolding exec_ending on_done finish throw
  passes q g f stack w w' e = rw e refl

  -- Where the body of a block without clauses raises an exception, and the FINALLY part finishes, the block
  -- jumps to the frame around it with that exception, but the message there is the one that this
  -- frame had, and not the message that the exception was thrown with.
  pub try_end-message :
      (p q : Code W) (here f : Frame) (stack : List Frame) (w w' w'' : W) (e : Origin)
      → mean unset p unset w ≡ (some e, w')
      → mean unset q e w' ≡ (none, w'')
      → exec unset (try_end p no_clause (finally q)) here (f ∷ stack) w
        ≡ jumped (record { origin = e; message = f.message }) stack w''
  unfolding exec exec_clauses on_body on_done
  try_end-message p q here f stack w w' w'' e raises finishes =
      let (message, found) =
        subst
          (λ r.
            Agrees r (fresh unset ∷ f ∷ stack)
              (exec unset p (fresh unset) (fresh unset ∷ f ∷ stack) w))
          raises (exec-Agrees unset p (fresh unset) (fresh unset ∷ f ∷ stack) w) in
      let g : Frame = record { origin = e; message = message } in
      let ended =
        subst (λ r. Agrees r (f ∷ stack) (exec unset q g (f ∷ stack) w')) finishes
          (exec-Agrees unset q g (f ∷ stack) w') in
      ap
        (λ c.
          on_body c (λ S v. exec_ending unset (finally q) entered (fresh unset) (drop 1 S) v)
            (λ f' S v.
              if length S == length (f ∷ stack)
              then exec_ending unset (finally q) thrown f' S v
              else jumped f' S v))
        found
      ∙ rw (same_length (f ∷ stack)) (passes q g f stack w' w'' ended)
