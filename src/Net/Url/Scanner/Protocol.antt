-- ===== src/Net/Url/Scanner/Protocol.antt =====
-- Where the scanner of src/net/URL.re finds the protocol of a text.
use libzdb.Prelude.{
  ℕ, zero, suc, ◌+◌, ◌-◌, ◌≤◌, ◌<◌, ◌≡◌, refl, ap, ◌∙◌, sym, subst, true, false, [], ◌∷◌, ◌++◌,
  some, none, Text, arith, ◌⊎◌, inl, inr, Bool-cases, ◌==◌, take, drop, length, length-take,
  length-drop, take-append-drop,
}
use libzdb.Util.Ctype.{isdigit}
use libzdb.Net.Url.Scanner.{span, at, is_alnum, protocol_length, proto}
use libzdb.Net.Url.Scanner.Query.{Within, span_stop, at_left}

-- A digit or a letter.
abbrev pub IsAlnum : ℕ → Type 0
IsAlnum c = ((b'0' ≤ c) × (c ≤ b'9')) ⊎ (((b'A' ≤ c) × (c ≤ b'Z')) ⊎ ((b'a' ≤ c) × (c ≤ b'z')))

abbrev pub AllAlnum : Text → Type 0
AllAlnum [] = Unit {0}
AllAlnum (c ∷ t) = IsAlnum c × AllAlnum t

-- A text has a name of digits and letters, not empty, and :// behind it.
abbrev pub NamesProtocol : Text → Text → Text → Text → Type 0
NamesProtocol before t rest s =
    (s ≡ before ++ (t ++ (b':' ∷ b'/' ∷ b'/' ∷ rest))) × (0 < length t) × AllAlnum t

-- No such name begins at an earlier place.
abbrev pub IsFirstOf : Text → Text → Type 0
IsFirstOf before s =
    (before' t rest : Text) → NamesProtocol before' t rest s → length before ≤ length before'

-- A protocol, with what follows it, is that of the text.
abbrev pub IsProtocolOf : Text → Text → Text → Type 0
IsProtocolOf t rest s = (before : Text) × NamesProtocol before t rest s × IsFirstOf before s

abbrev pub HasNoProtocol : Text → Type 0
HasNoProtocol s = (before t rest : Text) → NamesProtocol before t rest s → ⊥

IsAlnum-is_alnum : (c : ℕ) → IsAlnum c → is_alnum c ≡ true
unfolding isdigit
IsAlnum-is_alnum c h = ground arith

is_alnum-IsAlnum : (c : ℕ) → is_alnum c ≡ true → IsAlnum c
unfolding isdigit
is_alnum-IsAlnum c h = ground arith

AllAlnum-Within : (t : Text) → AllAlnum t → Within is_alnum t
AllAlnum-Within [] h = tt
AllAlnum-Within (c ∷ t) h = (IsAlnum-is_alnum c h.0, AllAlnum-Within t h.1)

span-AllAlnum : (s : Text) → AllAlnum (take (span is_alnum s) s)
unfolding span
span-AllAlnum [] = tt
span-AllAlnum (c ∷ s) = elim (Bool-cases (is_alnum c)) [
  | inl e ↦ rw e (is_alnum-IsAlnum c e, span-AllAlnum s)
  | inr e ↦ rw e tt
]

at_drop : (s : Text) (n d : ℕ) → at s n ≡ suc d → drop n s ≡ suc d ∷ drop (suc n) s
at_drop [] n d h = absurd (omega arith)
at_drop (c ∷ s) zero d h = ap (λ x. x ∷ s) h
at_drop (c ∷ s) (suc n) d h = at_drop s n d h

at_behind : (t tail : Text) (d i : ℕ) → at (t ++ d ∷ tail) (length t + i) ≡ at (d ∷ tail) i
at_behind [] tail d i = let e : 0 + i ≡ i = omega arith in ap (at (d ∷ tail)) e
at_behind (c ∷ t) tail d i =
    let e : length (c ∷ t) + i ≡ suc (length t + i) = omega arith in
    ap (at (c ∷ (t ++ d ∷ tail))) e ∙ at_behind t tail d i

-- A name at the very beginning is what the rule of the protocol matches.
protocol_length_named :
    (t rest s : Text) → NamesProtocol [] t rest s → protocol_length s ≡ length t + 3
unfolding protocol_length
protocol_length_named t rest s (e, some_byte, h) =
    let tail = b'/' ∷ b'/' ∷ rest in
    let n : span is_alnum s ≡ length t =
      ap (span is_alnum) e
      ∙ span_stop is_alnum t tail b':' (AllAlnum-Within t h) (unfold isdigit in refl) in
    let first : at s (length t) ≡ b':' = ap (λ s. at s (length t)) e ∙ at_left t tail b':' in
    let second : at s (length t + 1) ≡ b'/' =
      ap (λ s. at s (length t + 1)) e ∙ at_behind t tail b':' 1 in
    let third : at s (length t + 2) ≡ b'/' =
      ap (λ s. at s (length t + 2)) e ∙ at_behind t tail b':' 2 in
    ground (arith, n, first, second, third)

-- What the rule matches is a name at the very beginning.
named :
    (s : Text) (n : ℕ)
    → AllAlnum (take n s)
    → 0 < n
    → at s n ≡ b':'
    → at s (n + 1) ≡ b'/'
    → at s (n + 2) ≡ b'/'
    → NamesProtocol [] (take n s) (drop (n + 3) s) s
named s n h some_byte first second third =
    let one : n + 1 ≡ suc n = omega arith in
    let two : n + 2 ≡ suc (suc n) = omega arith in
    let three : suc (suc (suc n)) ≡ n + 3 = omega arith in
    let colon = at_drop s n 57 first in
    let behind =
      colon
      ∙ ap (λ l. b':' ∷ l) (at_drop s (suc n) 46 (ap (at s) (sym one) ∙ second))
      ∙ ap (λ l. b':' ∷ b'/' ∷ l) (at_drop s (suc (suc n)) 46 (ap (at s) (sym two) ∙ third))
      ∙ ap (λ m. b':' ∷ b'/' ∷ b'/' ∷ drop m s) three in
    let long : suc (length (drop (suc n) s)) ≡ length s - n =
      sym (ap length colon) ∙ length-drop n s in
    (sym (take-append-drop n s) ∙ ap (λ l. take n s ++ l) behind, omega (arith, length-take n s), h)

protocol_length-NamesProtocol :
    (s : Text)
    → (protocol_length s == 0) ≡ false
    → NamesProtocol [] (take (protocol_length s - 3) s) (drop (protocol_length s) s) s
unfolding protocol_length
protocol_length-NamesProtocol s h =
    let n = span is_alnum s in
    let found : (protocol_length s ≡ n + 3)
        × (0 < n)
        × (at s n ≡ b':')
        × (at s (n + 1) ≡ b'/')
        × (at s (n + 2) ≡ b'/') =
      ground arith in
    let same : protocol_length s - 3 ≡ n = omega (arith, found.0) in
    subst (λ m. NamesProtocol [] (take m s) (drop (protocol_length s) s) s) (sym same)
      (subst (λ k. NamesProtocol [] (take n s) (drop k s) s) (sym found.0)
        (named s n (span-AllAlnum s) found.1 found.2 found.3 found.4))

-- Where no name begins at the first byte, the names of a text are those of the rest.
not_here :
    (c : ℕ) (s before t rest : Text)
    → (protocol_length (c ∷ s) == 0) ≡ true
    → NamesProtocol before t rest (c ∷ s)
    → (b : Text) × NamesProtocol b t rest s × (suc (length b) ≡ length before)
not_here c s [] t rest h v = let k = protocol_length_named t rest (c ∷ s) v in absurd (ground arith)
not_here c s (x ∷ b) t rest h (e, some_byte, all) = (b, (ap (drop 1) e, some_byte, all), refl)

pub proto-none : (s : Text) → proto s ≡ none → HasNoProtocol s
unfolding proto
proto-none [] h [] [] rest (e, some_byte, all) = omega arith
proto-none [] h [] (x ∷ t) rest (e, some_byte, all) = absurd (cc)
proto-none [] h (x ∷ before) t rest (e, some_byte, all) = absurd (cc)
proto-none (c ∷ s) h before t rest v = elim (Bool-cases (protocol_length (c ∷ s) == 0)) [
  | inl none_here ↦
      let (b, v', _) = not_here c s before t rest none_here v in
      proto-none s (ground arith) b t rest v'
  | inr here ↦ absurd (ground arith)
]

pub proto-some : (s t rest : Text) → proto s ≡ some (t, rest) → IsProtocolOf t rest s
unfolding proto
proto-some [] t rest h = absurd (cc)
proto-some (c ∷ s) t rest h = elim (Bool-cases (protocol_length (c ∷ s) == 0)) [
  | inl none_here ↦
      let (before, (e, some_byte, all), first) = proto-some s t rest (ground arith) in
      (
        c ∷ before,
        (ap (λ l. c ∷ l) e, some_byte, all),
        λ b t' rest' v.
            let (b', v', longer) = not_here c s b t' rest' none_here v in
            let fewer = first b' t' rest' v' in omega arith,
      )
  | inr here ↦
      let k = protocol_length (c ∷ s) in
      let t_eq : take (k - 3) (c ∷ s) ≡ t = ground arith in
      let rest_eq : drop k (c ∷ s) ≡ rest = ground arith in
      (
        [],
        subst (λ x. NamesProtocol [] x rest (c ∷ s)) t_eq
            (subst (λ x. NamesProtocol [] (take (k - 3) (c ∷ s)) x (c ∷ s)) rest_eq
              (protocol_length-NamesProtocol (c ∷ s) here)),
        λ b t' rest' v. omega arith,
      )
]
