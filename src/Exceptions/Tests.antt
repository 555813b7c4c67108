-- ===== src/Exceptions/Tests.antt =====
-- The theorems about exceptions, at a block whose body throws and whose FINALLY part counts.
use libzdb.Prelude.{ℕ, suc, [], ◌∷◌, some, ◌≡◌, ◌⊎◌, refl}
use libzdb.Util.Str.{lit}
use libzdb.Exceptions.{
  Origin, Frame, Code, act, throws, seq, try_end, no_clause, catch, end_try, finally, jumped, exec,
}
use libzdb.Exceptions.Meaning.{mean}
use libzdb.Exceptions.Refinement.{Agrees}
use libzdb.Exceptions.Documented.{documented, Skips, exec-documented}
use libzdb.Exceptions.Messages.{try_end-message}

abbrev at : ℕ → Origin
at exception = record { exception = exception; func = lit "f"; file = lit "f.c"; line = 1 }

abbrev outer : Frame
outer = record { origin = at 0; message = [] }

abbrev failing : Code ℕ
failing = seq (act suc) (throws (at 7) (some (lit "no such table")))

abbrev inner : Code ℕ
inner = try_end failing no_clause (finally (act suc))

abbrev whole : Code ℕ
whole = try_end inner (catch 7 (act suc) no_clause) end_try

exec-documented_example :
    Agrees (mean (at 0) whole (at 0) 1) (outer ∷ []) (exec (at 0) whole outer (outer ∷ []) 1)
    × (Skips (at 0) whole (at 0) 1
        ⊎ (documented (at 0) whole (at 0) 1 ≡ mean (at 0) whole (at 0) 1))
exec-documented_example = exec-documented (at 0) whole outer (outer ∷ []) 1

try_end-message_example :
    exec (at 0) inner outer (outer ∷ []) 1 ≡ jumped (record { origin = at 7; message = [] }) [] 3
unfolding mean
try_end-message_example =
    try_end-message (at 0) failing (act suc) outer outer [] 1 2 3 (at 7) refl refl
