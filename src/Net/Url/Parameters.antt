-- ===== src/Net/Url/Parameters.antt =====
-- Looking up the parameters of a URL.
use libzdb.Prelude.{
  ◌≡◌, ◌≢◌, refl, false, List, [], ◌∷◌, ◌++◌, Option, some, none, Text, inl, inr, Bool-cases,
  append-nil, ◌∙◌,
}
use libzdb.Util.Str.{is_byte_equal}
use libzdb.Util.Str.Equality.{is_byte_equal-eq}
use libzdb.Net.Url.{Url, find_parameter, parameter}

-- The name is none of the keys.
abbrev pub Absent : Text → List (Text × Option Text) → Type 0
Absent name [] = Unit {0}
Absent name ((key, value) ∷ rest) = (key ≢ name) × Absent name rest

differ : (a b : Text) → a ≢ b → is_byte_equal (some a) (some b) ≡ false
differ a b h = elim (Bool-cases (is_byte_equal (some a) (some b))) [
  | inl same ↦ let (t, p, q) = (is_byte_equal-eq (some a) (some b)).0 same in absurd (h (cc))
  | inr other ↦ other
]

find_parameter-append :
    (name : Text) (before rest : List (Text × Option Text))
    → Absent name before
    → find_parameter (before ++ rest) name ≡ find_parameter rest name
unfolding find_parameter
find_parameter-append name [] rest h = refl
find_parameter-append name ((key, value) ∷ before) rest h =
    rw (differ key name h.0) (find_parameter-append name before rest h.1)

-- `URL_getParameter` gives the value of the first parameter of the name, and NULL where there is none.
pub parameter-first :
    (U : Url) (name : Text) (value : Option Text) (before rest : List (Text × Option Text))
    → Absent name before
    → (U.params ≡ before ++ (name, value) ∷ rest → parameter U name ≡ value)
      × (U.params ≡ before → parameter U name ≡ none)
unfolding parameter
parameter-first U name value before rest h = (
  λ e. rw (e, find_parameter-append name before ((name, value) ∷ rest) h) here,
  λ e. rw e (
      rw (← append-nil before)
        (find_parameter-append name before [] h ∙ unfold find_parameter in refl)),
)
  where
    here : find_parameter ((name, value) ∷ rest) name ≡ value
    here =
        unfold find_parameter in
        (rw ((is_byte_equal-eq (some name) (some name)).1 (name, refl, refl)))
