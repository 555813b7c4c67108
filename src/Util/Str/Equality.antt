-- ===== src/Util/Str/Equality.antt =====
-- What the comparisons of Str.c decide.
use libzdb.Prelude.{
  ℕ, ◌≡◌, ◌≢◌, ◌↔◌, ◌⊎◌, inl, inr, refl, ap, ◌∙◌, sym, Bool, true, false, List, [], ◌∷◌, ◌++◌, map,
  arith, some, none, Option, Text, ◌==◌, Bool-cases,
}
use libzdb.Util.Ctype.{toupper}
use libzdb.Util.Str.{
  equal_ignoring_case, is_equal, equal_bytes, is_byte_equal, starts_from, member_of, member,
}

equal_bytes→eq : (a b : Text) → equal_bytes a b ≡ true → a ≡ b
unfolding equal_bytes
equal_bytes→eq [] [] h = refl
equal_bytes→eq [] (y ∷ b) h = cc
equal_bytes→eq (x ∷ a) [] h = cc
equal_bytes→eq (x ∷ a) (y ∷ b) h = ground (arith, equal_bytes→eq a b)

pub equal_bytes_self : (a : Text) → equal_bytes a a ≡ true
unfolding equal_bytes
equal_bytes_self [] = refl
equal_bytes_self (x ∷ a) = ground (arith, equal_bytes_self a)

-- `Str_isByteEqual` holds of two strings exactly if neither is NULL and they have the same bytes.
pub is_byte_equal-eq :
    (a b : Option Text) → (is_byte_equal a b ≡ true) ↔ ((t : Text) × (a ≡ some t) × (b ≡ some t))
unfolding is_byte_equal
is_byte_equal-eq none b = (λ h. cc, λ (t, p, q). cc)
is_byte_equal-eq (some a) none = (λ h. cc, λ (t, p, q). cc)
is_byte_equal-eq (some a) (some b) = (
  λ h. (a, refl, ap some (sym (equal_bytes→eq a b h))),
  λ (t, p, q). ground (arith, equal_bytes_self t),
)

-- The strings agree byte by byte once each byte is in upper case.
pub equal_ignoring_case-eq :
    (a b : Text) → (equal_ignoring_case a b ≡ true) ↔ (map toupper a ≡ map toupper b)
unfolding equal_ignoring_case
equal_ignoring_case-eq [] [] = (λ h. refl, λ h. refl)
equal_ignoring_case-eq [] (y ∷ b) = (λ h. cc, λ h. cc)
equal_ignoring_case-eq (x ∷ a) [] = (λ h. cc, λ h. cc)
equal_ignoring_case-eq (x ∷ a) (y ∷ b) =
    let (to, from) = equal_ignoring_case-eq a b in
    elim (Bool-cases (toupper x == toupper y)) [
      | inl same ↦ rw same (λ h. ground (arith, to h), λ h. from (cc))
      | inr differ ↦
          let head_eq : map toupper (x ∷ a) ≡ map toupper (y ∷ b) → toupper x ≡ toupper y =
            λ h. cc in
          rw differ (λ h. cc, λ h. ground (arith, head_eq h))
    ]

-- `Str_isEqual` holds of two strings exactly if neither is NULL and they agree up to case.
pub is_equal-eq :
    (a b : Option Text)
    → (is_equal a b ≡ true)
      ↔ ((s : Text) × (t : Text) × (a ≡ some s) × (b ≡ some t) × (map toupper s ≡ map toupper t))
unfolding is_equal
is_equal-eq none b = (λ h. cc, λ (s, t, p, q, e). cc)
is_equal-eq (some a) none = (λ h. cc, λ (s, t, p, q, e). cc)
is_equal-eq (some a) (some b) = (
  λ h. (a, b, refl, refl, (equal_ignoring_case-eq a b).0 h),
  λ (s, t, p, q, e). (equal_ignoring_case-eq a b).1 (some_map a s p ∙ e ∙ sym (some_map b t q)),
)
  where
    some_map : (a b : Text) → some a ≡ some b → map toupper a ≡ map toupper b
    some_map a b p = ap (map toupper) (cc)

-- The prefix is proper text, or both strings are empty.
abbrev pub Starts : Text → Text → Type 0
Starts a b = ((b ≢ []) × ((rest : Text) × (a ≡ b ++ rest))) ⊎ ((a ≡ []) × (b ≡ []))

Starts-starts_from : (a b : Text) → starts_from a b ≡ true → Starts a b
unfolding starts_from
Starts-starts_from [] [] h = inr (refl, refl)
Starts-starts_from [] (y ∷ b) h = cc
Starts-starts_from (x ∷ a) [] h = cc
Starts-starts_from (x ∷ a) (y ∷ []) h = inl (λ e. cc, (a, ground arith))
Starts-starts_from (x ∷ a) (y ∷ z ∷ b) h =
    let same : x ≡ y = ground arith in
    elim (Starts-starts_from a (z ∷ b) (ground arith)) [
      | inl (_, (rest, e)) ↦ inl (λ e. cc, (rest, cc))
      | inr (_, e) ↦ inl (λ e. cc, absurd (cc))
    ]

starts_from-append : (y : ℕ) (b rest : Text) → starts_from (y ∷ b ++ rest) (y ∷ b) ≡ true
unfolding starts_from
starts_from-append y [] rest = ground arith
starts_from-append y (z ∷ b) rest = ground (arith, starts_from-append z b rest)

-- `Str_startsWith` accepts a prefix that is not empty, and the empty prefix of the empty string only.
pub starts_from-Starts : (a b : Text) → (starts_from a b ≡ true) ↔ Starts a b
starts_from-Starts a b = (Starts-starts_from a b, from a b)
  where
    from : (a b : Text) → Starts a b → starts_from a b ≡ true
    from a [] (inl (h, _)) = absurd (h refl)
    from a (y ∷ b) (inl (_, (rest, e))) = rw e (starts_from-append y b rest)
    from a b (inr (p, q)) = rw (p, q) (unfold starts_from in refl)

-- Some string of the set agrees with s up to case.
abbrev pub Has : Text → List Text → Type 0
Has s [] = ⊥
Has s (x ∷ set) = (map toupper x ≡ map toupper s) ⊎ Has s set

member_of-Has : (s : Text) (set : List Text) → (member_of s set ≡ true) ↔ Has s set
unfolding member_of
member_of-Has s [] = (λ h. cc, λ h. absurd h)
member_of-Has s (x ∷ set) =
    let (to, from) = member_of-Has s set in
    let (to_eq, from_eq) = equal_ignoring_case-eq x s in
    elim (Bool-cases (equal_ignoring_case x s)) [
      | inl same ↦ rw same (λ h. inl (to_eq same), λ h. refl)
      | inr differ ↦ rw differ (
        λ h. inr (to h),
        elim [ inl e ↦ absurd (absurd_bool differ (from_eq e)) | inr e ↦ from e ],
      )
    ]
  where
    absurd_bool : {b : Bool} → b ≡ false → b ≡ true → ⊥
    absurd_bool p q = cc

-- `Str_member` finds a string that is neither NULL nor empty in a set exactly if it is there up to
-- case.
pub member-Has :
    (c : ℕ) (s : Text) (set : List Text)
    → (member (some (c ∷ s)) (some set) ≡ true) ↔ Has (c ∷ s) set
unfolding member
member-Has c s set = member_of-Has (c ∷ s) set
