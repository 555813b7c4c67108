-- ===== src/Net/Url/Escaping.antt =====
-- `URL_unescape` undoes `URL_escape`, but for plus signs.
use libzdb.Prelude.{
  ℕ, ◌<◌, ◌≡◌, refl, ap, true, false, ◌||◌, [], ◌∷◌, ◌⊎◌, map, ◌++◌, arith, AllBytes, holds_under,
  holds_under_at, ◌==◌, ==_iff, Text, inl, inr, Bool-cases, ◌/◌, ◌%◌, not,
}
use libzdb.Net.Url.{is_unsafe, hex_value, x2b, hex_digit, b2x, plus_to_space, unescape, escape}

hex_table : holds_under (λ c. x2b (hex_digit (c / 16)) (hex_digit (c % 16)) == c) 256 ≡ true
unfolding holds_under x2b hex_value hex_digit
hex_table = refl

-- The two digits that stand for a byte are read back as that byte.
x2b-hex_digit : (c : ℕ) → c < 256 → x2b (hex_digit (c / 16)) (hex_digit (c % 16)) ≡ c
x2b-hex_digit c h = (==_iff _ c).0 (holds_under_at _ 256 c h hex_table)

safe_table : holds_under (λ c. is_unsafe c || not (c == b'%')) 256 ≡ true
unfolding holds_under is_unsafe
safe_table = refl

unescape-b2x : (c : ℕ) (s : Text) → c < 256 → unescape (b2x c ++ s) ≡ c ∷ unescape s
unfolding unescape b2x
unescape-b2x c s h = rw (x2b-hex_digit c h)

unescape_safe :
    (c : ℕ) (s : Text) → is_unsafe c ≡ false → unescape (c ∷ s) ≡ plus_to_space c ∷ unescape s
unfolding unescape is_unsafe
unescape_safe c [] h = ground arith
unescape_safe c (a ∷ []) h = ground arith
unescape_safe c (a ∷ b ∷ s) h = ground arith

plus_safe : (c : ℕ) → is_unsafe c ≡ true → plus_to_space c ≡ c
unfolding is_unsafe plus_to_space
plus_safe c h = ground arith

-- Escaping a text of bytes and translating it back gives the text, but that each plus sign is now a
-- space.
pub unescape-escape : (s : Text) → AllBytes s → unescape (escape s) ≡ map plus_to_space s
unfolding escape
unescape-escape [] h = unfold unescape in refl
unescape-escape (c ∷ s) (byte, h) = elim (Bool-cases (is_unsafe c)) [
  | inl bad ↦
      rw (bad, unescape-b2x c (escape s) byte, plus_safe c bad) (ap (◌∷◌ c) (unescape-escape s h))
  | inr safe ↦
      rw (safe, unescape_safe c (escape s) safe) (ap (◌∷◌ (plus_to_space c)) (unescape-escape s h))
]

-- An escaped text has no byte that is unsafe, but for the percent signs of its escapes.
abbrev pub AllSafe : Text → Type 0
AllSafe [] = Unit {0}
AllSafe (c ∷ s) = ((is_unsafe c ≡ false) ⊎ (c ≡ b'%')) × AllSafe s

hex_safe_table : holds_under (λ d. not (is_unsafe (hex_digit d))) 16 ≡ true
unfolding holds_under is_unsafe hex_digit
hex_safe_table = refl

hex_digit_safe : (d : ℕ) → d < 16 → is_unsafe (hex_digit d) ≡ false
hex_digit_safe d h =
    let t : not (is_unsafe (hex_digit d)) ≡ true = holds_under_at _ 16 d h hex_safe_table in
    ground arith

-- An escaped text of bytes has no byte that is unsafe, but for the percent signs of its escapes.
pub escape-AllSafe : (s : Text) → AllBytes s → AllSafe (escape s)
unfolding escape b2x
escape-AllSafe [] h = tt
escape-AllSafe (c ∷ s) (byte, h) = elim (Bool-cases (is_unsafe c)) [
  | inl bad ↦ rw bad (
    inr refl,
    (
      inl (hex_digit_safe (c / 16) (omega arith)),
      (inl (hex_digit_safe (c % 16) (omega arith)), escape-AllSafe s h),
    ),
  )
  | inr safe ↦ rw safe (inl safe, escape-AllSafe s h)
]
