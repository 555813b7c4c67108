-- ===== src/Net/Url/Scanner.antt =====
-- The scanner of src/net/URL.re: `_parseURL`, with its four groups of rules, and `URL_new`. Of the rules that
-- match the one with the longest match is taken, and of those the first; a length of 0 is that a rule does
-- not match. What is read of the text is a token, which the source ends with a zero in place.
pub mod Total
pub mod Query
pub mod Protocol
use libzdb.Prelude.{
  ℕ, zero, suc, ◌+◌, ◌-◌, Bool, true, false, not, ◌&&◌, ◌||◌, List, [], ◌∷◌, ◌++◌, Option, some,
  none, Text, Result, ok, err, leb, ltb, ◌==◌, if◌then◌else◌, take, drop, get_or, length,
}
use libzdb.Prelude.Int.{ℤ, pos, negsuc}
use libzdb.Util.Ctype.{isdigit}
use libzdb.Util.Str.{lit, is_byte_equal, parse_int}
use libzdb.Net.Url.{Url, unescape}

abbrev pub is_alnum : ℕ → Bool
is_alnum c = isdigit c || (leb b'a' c && leb c b'z') || (leb b'A' c && leb c b'Z')

-- `ws`, and the classes of the rules `auth`, `host`, `host6`, `path`, `query`, `parameterkey` and
-- `parametervalue`.
abbrev is_ws : ℕ → Bool
is_ws c = c == b' ' || c == 9 || c == 13 || c == 10

abbrev is_auth : ℕ → Bool
is_auth c = leb 32 c && not (c == b'@') && not (c == b'[') && not (c == b']')

abbrev is_label : ℕ → Bool
is_label c = is_alnum c || c == b'-'

abbrev is_host6 : ℕ → Bool
is_host6 c = is_alnum c || c == b':' || c == b'%'

abbrev is_path : ℕ → Bool
is_path c = leb 33 c && not (c == b'?') && not (c == b'#')

abbrev is_query : ℕ → Bool
is_query c = leb 32 c && not (c == b'#')

abbrev is_key : ℕ → Bool
is_key c = leb 33 c && not (c == b'=')

abbrev is_value : ℕ → Bool
is_value c = leb 32 c && not (c == b'&')

-- How many bytes of a class a text begins with.
pub span : (ℕ → Bool) → Text → ℕ
span class [] = 0
span class (c ∷ s) = let rest = span class s in if class c then suc rest else 0

-- The byte at a place, 0 behind the end.
abbrev pub at : Text → ℕ → ℕ
at s i = get_or s i 0

pub protocol_length : Text → ℕ
unfolding span
protocol_length s =
    let n = span is_alnum s in
    if ltb 0 n && at s n == b':' && at s (n + 1) == b'/' && at s (n + 2) == b'/' then n + 3 else 0

auth_length : Text → ℕ
unfolding span
auth_length s = let n = span is_auth s in if ltb 0 n && at s n == b'@' then suc n else 0

host6_length : Text → ℕ
unfolding span
host6_length [] = 0
host6_length (c ∷ s) =
    let n = span is_host6 s in if c == b'[' && ltb 0 n && at s n == b']' then n + 2 else 0

-- From inside a name: a dot is part of it where a label follows.
labels : Text → ℕ
labels [] = 0
labels (c ∷ []) = if is_label c then 1 else 0
labels (c ∷ d ∷ s) =
    let rest = labels (d ∷ s) in if is_label c || (c == b'.' && is_label d) then suc rest else 0

host_length : Text → ℕ
unfolding labels
host_length s = if is_label (at s 0) then labels s else 0

port_length : Text → ℕ
unfolding span
port_length [] = 0
port_length (c ∷ s) = let n = span isdigit s in if c == b':' && ltb 0 n then suc n else 0

path_length : Text → ℕ
unfolding span
path_length [] = 0
path_length (c ∷ s) = if c == b'/' then suc (span is_path s) else 0

path_query_length : Text → ℕ
unfolding path_length
path_query_length s = let n = path_length s in if ltb 0 n && at s n == b'?' then suc n else 0

-- The rules of `authority`.
pub data Rule : Type 0 where
  ws auth host6 host port path path_query any : Rule

longest : ℕ × Rule → List (ℕ × Rule) → ℕ × Rule
longest best [] = best
longest best (r ∷ rules) = longest (if ltb best.0 r.0 then r else best) rules

-- The rules between the first and the last, in the order of the source.
abbrev middle_rules : Text → List (ℕ × Rule)
middle_rules s =
    (auth_length s, auth)
    ∷ (host6_length s, host6)
    ∷ (host_length s, host)
    ∷ (port_length s, port)
    ∷ (path_length s, path)
    ∷ (path_query_length s, path_query)
    ∷ []

abbrev first_rule : Text → ℕ × Rule
first_rule s = (if is_ws (at s 0) then 1 else 0, ws)

-- The length of the match, and the rule, for a text that is not empty.
pub authority_rule : Text → ℕ × Rule
unfolding longest auth_length host6_length host_length port_length path_length path_query_length
authority_rule s = longest (first_rule s) (middle_rules s ++ (1, any) ∷ [])

-- What is before the first colon, and what is behind it, if there is one.
split_colon : Text → Text × Option Text
split_colon [] = ([], none)
split_colon (c ∷ s) =
    let (before, behind) = split_colon s in if c == b':' then ([], some s) else (c ∷ before, behind)

-- The action of `auth`, on the token without its last byte.
with_user : Url → Text → Url
unfolding split_colon
with_user U t =
    let (user, password) = split_colon t in
    record U {
      user = some (unescape user);
      password = elim password [ none ↦ U.password | some p ↦ some (unescape p) ];
    }

-- A value is that of the parameter whose key was read last.
put_value : List (Text × Option Text) → Text → List (Text × Option Text)
put_value [] value = []
put_value ((name, old) ∷ ps) value = (name, some (unescape value)) ∷ ps

-- From `params` on, in a number of rounds, on what is left of the query.
pub params : ℕ → List (Text × Option Text) → Text → Option (List (Text × Option Text))
unfolding span put_value
params zero ps s = none
params (suc n) ps [] = some ps
params (suc n) ps (c ∷ s) =
    let k = span is_key (c ∷ s) in
    let is_parameter = ltb 0 k && at (c ∷ s) k == b'=' in
    let v = span is_value s in
    let next = if at s v == b'&' then suc v else v in
    let key = params n ((take k (c ∷ s), none) ∷ ps) (drop k (c ∷ s)) in
    let value = params n (put_value ps (take v s)) (drop next s) in
    if is_parameter
    then key
    else if c == b'='
    then elim ps [ [] ↦ some [] | p ∷ rest ↦ value ]
    else some ps

-- From `query` on.
pub query : Url → Text → Option Url
unfolding span params
query U s =
    let n = span is_query s in
    let t = take n s in
    if n == 0 then some U else elim (params (suc (length t)) U.params t) [
      | none ↦ none
      | some ps ↦ some (record U { query = some t; params = ps })
    ]

-- The action of a rule of `authority` on a text of which so many bytes are the token, given what the label
-- goes on with.
pub act : (Url → Option (Result Url)) → Url → Text → ℕ → Rule → Option (Result Url)
unfolding with_user query
act next U s k ws = next U
act next U s k auth = next (with_user U (take (k - 1) s))
act next U s k host6 = next (record U { ip6 = true; host = some (take (k - 2) (drop 1 s)) })
act next U s k host = next (record U { host = some (take k s) })
act next U s k port = elim (parse_int (some (drop 1 s))) [
  | err e ↦ some (err e)
  | ok p ↦ next (record U { port = p })
]
act next U s k path = some (ok (record U { path = some (unescape (take k s)) }))
act next U s k path_query =
    let V = record U { path = some (unescape (take (k - 1) s)) } in
    elim (query V (drop k s)) [ none ↦ none | some V' ↦ some (ok V') ]
act next U s k any = some (ok U)

-- From `authority` on, in a number of rounds.
pub authority : ℕ → Url → Text → Option (Result Url)
unfolding authority_rule act
authority zero U s = none
authority (suc n) U [] = some (ok U)
authority (suc n) U (c ∷ s) =
    let (k, rule) = authority_rule (c ∷ s) in
    act (λ V. authority n V (drop k (c ∷ s))) U (c ∷ s) k rule

abbrev names_protocol : Text → Text → Bool
names_protocol t p = is_byte_equal (some t) (some p)

-- SET_PROTOCOL gives the port: UNKNOWN_PORT but for three of them.
default_port : Text → ℤ
default_port t =
    if names_protocol t (lit "mysql")
    then pos 3306
    else if names_protocol t (lit "postgresql")
    then pos 5432
    else if names_protocol t (lit "oracle")
    then pos 1521
    else negsuc 0

-- From `proto` on: the protocol and what follows it.
pub proto : Text → Option (Text × Text)
unfolding protocol_length
proto [] = none
proto (c ∷ s) =
    let k = protocol_length (c ∷ s) in
    let next = proto s in if k == 0 then next else some (take (k - 3) (c ∷ s), drop k (c ∷ s))

-- What NEW and `_ctor` leave.
blank : Url
blank = record {
  ip6 = false;
  port = negsuc 0;
  path = none;
  host = none;
  user = none;
  query = none;
  protocol = none;
  password = none;
  params = [];
}

-- SET_PROTOCOL, and what follows it.
pub set_protocol : Text → Text → Option (Result (Option Url))
unfolding authority blank default_port
set_protocol protocol rest =
    let U = record blank { protocol = some protocol; port = default_port protocol } in
    elim (authority (suc (length rest)) U rest) [
      | none ↦ none
      | some (err e) ↦ some (err e)
      | some (ok V) ↦ some (ok (some V))
    ]

-- `_parseURL`. A port that `Str_parseInt` does not take throws.
pub parse_url : Text → Option (Result (Option Url))
unfolding proto set_protocol
parse_url s = elim (proto s) [
  | none ↦ some (ok none)
  | some (protocol, rest) ↦ set_protocol protocol rest
]

-- `URL_new`
pub new : Option Text → Option (Result (Option Url))
unfolding parse_url
new none = some (ok none)
new (some []) = some (ok none)
new (some (c ∷ s)) = parse_url (c ∷ s)

-- `URL_create`: what `vsnprintf` prints for a format and its arguments is a parameter.
pub create {ℓ} :
    {Args : Type ℓ} → (Text → Args → Text) → Option Text → Args → Option (Result (Option Url))
unfolding parse_url
create printf none ap = some (ok none)
create printf (some []) ap = some (ok none)
create printf (some (c ∷ s)) ap = parse_url (printf (c ∷ s) ap)
