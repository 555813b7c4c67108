-- ===== src/Net/Url/Scanner/Total.antt =====
-- That the scanner ends, and where it finds a protocol.
use libzdb.Prelude.{
  ℕ, ◌≤◌, ◌≡◌, List, [], ◌∷◌, Option, some, none, Text, Result, ok, err, arith, ltb, if◌then◌else◌,
}
use libzdb.Net.Url.{Url}
use libzdb.Net.Url.Scanner.Protocol.{IsProtocolOf, HasNoProtocol}
use libzdb.Net.Url.Scanner.{Rule, longest}

-- That there is a result.
abbrev IsSome : {A : Type 0} → Option A → Type 0
IsSome {A} o = (a : A) × (o ≡ some a)

longest_first : (best : ℕ × Rule) (rules : List (ℕ × Rule)) → best.0 ≤ (longest best rules).0
unfolding longest
longest_first best [] = omega arith
longest_first best (r ∷ rules) =
    let better : best.0 ≤ (if ltb best.0 r.0 then r else best).0 = ground arith in
    omega (arith, better, longest_first (if ltb best.0 r.0 then r else best) rules)

-- That there is a result, and the protocol of the URL in it, if there is one.
abbrev HasProtocol : Option Text → Result Url → Type 0
HasProtocol p (ok U) = U.protocol ≡ p
HasProtocol p (err e) = Unit {0}

abbrev Keeps : Option Text → Option (Result Url) → Type 0
Keeps p o = (r : Result Url) × (o ≡ some r) × HasProtocol p r

-- What the scanner finds of a text: no URL where no protocol is in it, an exception behind the protocol,
-- or a URL with that protocol.
abbrev pub Finds : Text → Result (Option Url) → Type 0
Finds s (err e) = (t : Text) × (rest : Text) × IsProtocolOf t rest s
Finds s (ok none) = HasNoProtocol s
Finds s (ok (some U)) = (t : Text) × (rest : Text) × IsProtocolOf t rest s × (U.protocol ≡ some t)
