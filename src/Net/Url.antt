-- ===== src/Net/Url.antt =====
-- src/net/URL.re: the fields of a URL, its parameters, how it is printed, and the two translations of
-- escaped bytes; Scanner has the rules of `_parseURL`, of which re2c makes the code. A text is given by its
-- bytes.
pub mod Escaping
pub mod Parameters
pub mod Scanner
mod Tests
use Prim.Native.Nat.{bit_and}
use libzdb.Prelude.{
  ℕ, ◌+◌, ◌-◌, ◌*◌, ◌/◌, ◌%◌, Bool, ◌&&◌, ◌||◌, List, [], ◌∷◌, ◌++◌, Option, some, none, leb, ltb,
  ◌==◌, if◌then◌else◌, Text, take,
}
use libzdb.Prelude.Int.{ℤ}
use libzdb.Util.Str.{lit, is_byte_equal}

-- `struct URL_S`, less the cursors of the scanner and the strings that are built on demand.
pub record Url : Type 0 where
  pub ip6 : Bool
  pub port : ℤ
  pub path : Option Text
  pub host : Option Text
  pub user : Option Text
  pub query : Option Text
  pub protocol : Option Text
  pub password : Option Text
  pub params : List (Text × Option Text)

abbrev names : List (Text × Option Text) → List Text
names [] = []
names ((name, value) ∷ params) = name ∷ names params

-- `URL_getParameterNames`: NULL where there are no parameters.
unfoldable pub parameter_names : Url → Option (List Text)
parameter_names U = elim U.params [ [] ↦ none | p ∷ rest ↦ some (names (p ∷ rest)) ]

find_parameter : List (Text × Option Text) → Text → Option Text
find_parameter [] name = none
find_parameter ((key, value) ∷ rest) name =
    if is_byte_equal (some key) (some name) then value else find_parameter rest name

unfoldable pub parameter : Url → Text → Option Text
unfolding find_parameter
parameter U name = find_parameter U.params name

-- `urlunsafe`: [00-1F, 7F-FF] and <>"#%}{|\^[] and ` and the space.
pub is_unsafe : ℕ → Bool
is_unsafe c =
    ltb c 0x21
    || leb 0x7f c
    || c == b'<'
    || c == b'>'
    || c == 0x22
    || c == b'#'
    || c == b'%'
    || c == b'{'
    || c == b'}'
    || c == b'|'
    || c == 0x5c
    || c == b'^'
    || c == b'['
    || c == b']'
    || c == 0x60

-- One digit of `_x2b`, modulo the 256 values of the byte that it ends up in.
hex_value : ℕ → ℕ
hex_value c =
    if leb b'A' c then (bit_and c 0xdf + 256 - b'A' + 10) % 256 else (c + 256 - b'0') % 256

x2b : ℕ → ℕ → ℕ
x2b a b = (hex_value a * 16 + hex_value b) % 256

hex_digit : ℕ → ℕ
hex_digit d = if ltb d 10 then d + b'0' else d - 10 + b'A'

b2x : ℕ → Text
b2x b = b'%' ∷ hex_digit (b / 16) ∷ hex_digit (b % 16) ∷ []

pub plus_to_space : ℕ → ℕ
plus_to_space c = if c == b'+' then b' ' else c

-- `URL_unescape`, on the bytes before the terminating zero. A percent sign with fewer than two bytes
-- behind it ends the text.
pub unescape : Text → Text
unescape [] = []
unescape (c ∷ []) = if c == b'%' then [] else plus_to_space c ∷ []
unescape (c ∷ a ∷ []) =
    let next = unescape (a ∷ []) in if c == b'%' then [] else plus_to_space c ∷ next
unescape (c ∷ a ∷ b ∷ s) =
    let skip = unescape s in
    let next = unescape (a ∷ b ∷ s) in if c == b'%' then x2b a b ∷ skip else plus_to_space c ∷ next

pub escape : Text → Text
escape [] = []
escape (c ∷ s) = let rest = escape s in if is_unsafe c then b2x c ++ rest else c ∷ rest

abbrev text_or : Option Text → Text
text_or none = []
text_or (some t) = t

abbrev where_given : {A : Type 0} → Option A → Text → Text
where_given none t = []
where_given (some a) t = t

-- `URL_toString`, given whether a port was seen in the URL; `print_int` is `%d`.
pub to_string : (ℤ → Text) → Bool → Url → Text
to_string print_int port_seen U =
    text_or U.protocol
    ++ (lit "://"
        ++ (text_or U.user
            ++ (where_given U.password (lit ":")
                ++ (text_or U.password
                    ++ (where_given U.user (lit "@")
                        ++ ((if U.ip6 then lit "[" else [])
                            ++ (text_or U.host
                                ++ ((if U.ip6 then lit "]" else [])
                                    ++ ((if port_seen
                                          then take 9 (lit ":" ++ print_int U.port)
                                          else [])
                                        ++ (text_or U.path
                                            ++ (where_given U.query (lit "?")
                                                ++ text_or U.query)))))))))))
