-- ===== src/System.antt =====
-- src/system/System.c: how an exception that nobody catches ends the process. The text of `errno` is libc's.
pub mod Memory
use libzdb.Prelude.{Bool, Text, Option, some, none, if◌then◌else◌}
use libzdb.Util.Str.{vcat}

-- The handler of aborts is called with a text and the function returns; or the text is printed, and the
-- process aborts or exits.
pub data Ending : Type 0 where
  handled : Option Text → Ending
  dumped exited : Text → Ending

-- `System_abort`, given whether there is a handler and whether ZBDEBUG is set.
pub abort {ℓ} : {Args : Type ℓ} → (Text → Args → Text) → Bool → Bool → Text → Args → Ending
abort printf handler debug e ap =
    if handler
    then handled (vcat printf (some e) ap)
    else if debug
    then dumped (printf e ap)
    else exited (printf e ap)

-- `System_debug`: what is printed, if anything is.
pub debug {ℓ} : {Args : Type ℓ} → (Text → Args → Text) → Bool → Text → Args → Option Text
debug printf on s ap = if on then some (printf s ap) else none
