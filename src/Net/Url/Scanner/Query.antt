-- ===== src/Net/Url/Scanner/Query.antt =====
-- What the scanner reads of a query.
use libzdb.Prelude.{
  ℕ, zero, suc, ◌<◌, ◌≡◌, refl, ap, ◌∙◌, Bool, true, false, List, [], ◌∷◌, ◌++◌, Option, some, none,
  Text, arith, ltb, drop, length, length-append, take-append_left, take_all, drop_all,
}
use libzdb.Net.Url.{unescape}
use libzdb.Net.Url.Scanner.{params, span, is_key, is_value, at, put_value}

-- A key that is not empty, with its value.
pub record Pair : Type 0 where
  pub first : ℕ
  pub others : Text
  pub value : Text

abbrev pub name_of : Pair → Text
name_of p = p.first ∷ p.others

abbrev pub Within : (ℕ → Bool) → Text → Type 0
Within class [] = Unit {0}
Within class (c ∷ s) = (class c ≡ true) × Within class s

-- The bytes are those that the scanner takes into a key and into a value.
abbrev pub AreFit : List Pair → Type 0
AreFit [] = Unit {0}
AreFit (p ∷ ps) = Within is_key (name_of p) × Within is_value p.value × AreFit ps

-- The query of the pairs.
abbrev pub text_of : List Pair → Text
text_of [] = []
text_of (p ∷ []) = name_of p ++ b'=' ∷ p.value
text_of (p ∷ r ∷ ps) = name_of p ++ b'=' ∷ (p.value ++ b'&' ∷ text_of (r ∷ ps))

-- The parameters in the order of the list, which is that in which they were read turned round.
abbrev pub collected : List (Text × Option Text) → List Pair → List (Text × Option Text)
collected acc [] = acc
collected acc (p ∷ ps) = collected ((name_of p, some (unescape p.value)) ∷ acc) ps

pub span_stop :
    (class : ℕ → Bool) (s t : Text) (d : ℕ)
    → Within class s
    → class d ≡ false
    → span class (s ++ d ∷ t) ≡ length s
unfolding span
span_stop class [] t d h e = rw e refl
span_stop class (c ∷ s) t d (h, hs) e = rw h (ap suc (span_stop class s t d hs e))

span_end : (class : ℕ → Bool) (s : Text) → Within class s → span class s ≡ length s
unfolding span
span_end class [] h = refl
span_end class (c ∷ s) (h, hs) = rw h (ap suc (span_end class s hs))

drop_left : (s t : Text) → drop (length s) (s ++ t) ≡ t
drop_left [] t = refl
drop_left (c ∷ s) t = drop_left s t

pub at_left : (s t : Text) (d : ℕ) → at (s ++ d ∷ t) (length s) ≡ d
at_left [] t d = refl
at_left (c ∷ s) t d = at_left s t d

drop_behind : (s t : Text) (d : ℕ) → drop (suc (length s)) (s ++ d ∷ t) ≡ t
drop_behind [] t d = refl
drop_behind (c ∷ s) t d = drop_behind s t d

at_end : (s : Text) → at s (length s) ≡ 0
at_end [] = refl
at_end (c ∷ s) = at_end s

positive : (n : ℕ) → ltb 0 (suc n) ≡ true
positive n = ground arith

-- A key with what follows it.
read_key :
    (n c : ℕ) (s t : Text) (ps : List (Text × Option Text))
    → Within is_key (c ∷ s)
    → params (suc n) ps ((c ∷ s) ++ b'=' ∷ t) ≡ params n ((c ∷ s, none) ∷ ps) (b'=' ∷ t)
unfolding params
read_key n c s t ps h =
    rw
      (
        span_stop is_key (c ∷ s) t b'=' h refl,
        at_left (c ∷ s) t b'=',
        take-append_left (c ∷ s) (b'=' ∷ t),
        drop_left (c ∷ s) (b'=' ∷ t),
        positive (length s),
        params,
      )
      refl

-- A value with another parameter behind it, and the last.
read_value :
    (n : ℕ) (k v t : Text) (ps : List (Text × Option Text))
    → Within is_value v
    → params (suc n) ((k, none) ∷ ps) (b'=' ∷ (v ++ b'&' ∷ t))
      ≡ params n ((k, some (unescape v)) ∷ ps) t
unfolding params put_value span
read_value n k v t ps h =
    rw
      (
        span_stop is_value v t b'&' h refl,
        at_left v t b'&',
        take-append_left v (b'&' ∷ t),
        drop_behind v t b'&',
        params,
      )
      refl

read_last :
    (n : ℕ) (k v : Text) (ps : List (Text × Option Text))
    → Within is_value v
    → params (suc n) ((k, none) ∷ ps) (b'=' ∷ v) ≡ params n ((k, some (unescape v)) ∷ ps) []
unfolding params put_value span
read_last n k v ps h =
    rw
      (
        span_end is_value v h,
        at_end v,
        take_all (length v) v (omega arith),
        drop_all (length v) v (omega arith),
        params,
      )
      refl

-- Where the keys are not empty and have no byte that ends a key, and the values none that ends a value, the
-- parameters that are read of the query made of them are these, the last one first, with the values
-- unescaped, and a round for each byte and one more is enough.
pub params-text_of :
    (n : ℕ) (acc : List (Text × Option Text)) (ps : List Pair)
    → AreFit ps
    → length (text_of ps) < n
    → params n acc (text_of ps) ≡ some (collected acc ps)
unfolding params
params-text_of zero acc ps fit h = absurd (omega arith)
params-text_of (suc n) acc [] fit h = refl
params-text_of (suc zero) acc (p ∷ []) fit h = absurd (omega arith)
params-text_of (suc (suc zero)) acc (p ∷ []) fit h =
    absurd (omega (arith, length-append p.others (b'=' ∷ p.value)))
params-text_of (suc (suc (suc n))) acc (p ∷ []) (key, value, fit) h =
    read_key (suc (suc n)) p.first p.others p.value acc key
    ∙ read_last (suc n) (name_of p) p.value acc value
params-text_of (suc zero) acc (p ∷ r ∷ ps) fit h = absurd (omega arith)
params-text_of (suc (suc n)) acc (p ∷ r ∷ ps) (key, value, fit) h =
    let rest = text_of (r ∷ ps) in
    read_key (suc n) p.first p.others (p.value ++ b'&' ∷ rest) acc key
    ∙ read_value n (name_of p) p.value rest acc value
    ∙ params-text_of n ((name_of p, some (unescape p.value)) ∷ acc) (r ∷ ps) fit (
        omega (
          arith,
          length-append p.others (b'=' ∷ (p.value ++ b'&' ∷ rest)),
          length-append p.value (b'&' ∷ rest),
        ))
