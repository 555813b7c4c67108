-- ===== src/Util/Str/Booleans.antt =====
-- What `Str_parseBool` accepts.
use libzdb.Prelude.{
  ◌≡◌, ◌↔◌, ◌⊎◌, inl, inr, refl, Bool, true, false, ◌||◌, List, [], ◌∷◌, ◌++◌, map, arith, some,
  Text, Bool-cases,
}
use libzdb.Util.Ctype.{tolower}
use libzdb.Util.Str.{lit, skip_spaces, ends, is_equals_ci, bool_word, parse_bool}

-- The text begins with the word, up to case, and then it ends or there is a space.
abbrev pub BeginsWithWord : Text → Text → Type 0
BeginsWithWord s w =
    (a : Text) × (rest : Text) × (s ≡ a ++ rest)
    × (map tolower a ≡ map tolower w)
    × (ends rest ≡ true)

is_equals_ci→word : (s w : Text) → is_equals_ci s w ≡ true → BeginsWithWord s w
unfolding is_equals_ci
is_equals_ci→word s [] h = ([], s, refl, refl, h)
is_equals_ci→word [] (l ∷ w) h = cc
is_equals_ci→word (c ∷ s) (l ∷ w) h =
    let same : tolower c ≡ tolower l = ground arith in
    let (a, rest, split, agree, ended) = is_equals_ci→word s w (ground arith) in
    (c ∷ a, rest, cc, cc, ended)

word→is_equals_ci :
    (a w rest : Text)
    → map tolower a ≡ map tolower w
    → ends rest ≡ true
    → is_equals_ci (a ++ rest) w ≡ true
unfolding is_equals_ci
word→is_equals_ci [] [] rest e h = h
word→is_equals_ci (c ∷ a) [] rest e h = cc
word→is_equals_ci [] (l ∷ w) rest e h = cc
word→is_equals_ci (c ∷ a) (l ∷ w) rest e h =
    let same : tolower c ≡ tolower l = cc in ground (arith, same, word→is_equals_ci a w rest (cc) h)

-- `_is_equals_ci` says whether the text begins with the word.
pub is_equals_ci-BeginsWithWord : (s w : Text) → (is_equals_ci s w ≡ true) ↔ BeginsWithWord s w
is_equals_ci-BeginsWithWord s w = (
  is_equals_ci→word s w,
  λ (a, rest, split, agree, ended). rw split (word→is_equals_ci a w rest agree ended),
)

-- The words that stand for true.
abbrev pub true_words : List Text
true_words = lit "1" ∷ lit "yes" ∷ lit "true" ∷ lit "on" ∷ lit "enable" ∷ lit "enabled" ∷ []

abbrev pub BeginsWithOneOf : Text → List Text → Type 0
BeginsWithOneOf s [] = ⊥
BeginsWithOneOf s (w ∷ ws) = BeginsWithWord s w ⊎ BeginsWithOneOf s ws

abbrev some_word : Text → List Text → Bool
some_word s [] = false
some_word s (w ∷ ws) = is_equals_ci s w || some_word s ws

some_word-BeginsWithOneOf :
    (s : Text) (ws : List Text) → (some_word s ws ≡ true) ↔ BeginsWithOneOf s ws
some_word-BeginsWithOneOf s [] = (λ h. cc, λ h. absurd h)
some_word-BeginsWithOneOf s (w ∷ ws) =
    let (to, from) = some_word-BeginsWithOneOf s ws in
    let (to_word, from_word) = is_equals_ci-BeginsWithWord s w in
    elim (Bool-cases (is_equals_ci s w)) [
      | inl same ↦ rw same (λ h. inl (to_word same), λ h. refl)
      | inr differ ↦ rw differ (
        λ h. inr (to h),
        elim [
          | inl e ↦ let t : is_equals_ci s w ≡ true = from_word e in absurd (ground arith)
          | inr e ↦ from e
        ],
      )
    ]

-- Switching on the first byte loses none of the words.
bool_word-some_word : (s : Text) → bool_word s ≡ some_word s true_words
unfolding bool_word is_equals_ci tolower
bool_word-some_word [] = refl
bool_word-some_word (c ∷ s) = ground arith

parse_bool-bool_word : (s : Text) → parse_bool (some s) ≡ bool_word (skip_spaces s)
unfolding parse_bool
parse_bool-bool_word [] = unfold skip_spaces bool_word in refl
parse_bool-bool_word (c ∷ s) = refl

-- `Str_parseBool` is true exactly of a text that begins, behind its spaces, with one of the words in
-- any case, followed by a space or the end.
pub parse_bool-BeginsWithOneOf :
    (s : Text) → (parse_bool (some s) ≡ true) ↔ BeginsWithOneOf (skip_spaces s) true_words
parse_bool-BeginsWithOneOf s =
    rw (parse_bool-bool_word s, bool_word-some_word (skip_spaces s))
      (some_word-BeginsWithOneOf (skip_spaces s) true_words)
