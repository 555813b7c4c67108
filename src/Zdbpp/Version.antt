-- ===== src/Zdbpp/Version.antt =====
-- The namespace `version` of src/zdbpp.h. The three parts, which the build sets in src/zdb.h, are not
-- negative.
use libzdb.Prelude.{ℕ, ◌+◌, ◌*◌, ◌≤◌, ◌<◌, ◌≡◌, ◌↔◌, Bool, true, ltb, leb, ◌==◌, ◌&&◌, ◌||◌, arith}

pub record Version : Type 0 where
  pub major : ℕ
  pub minor : ℕ
  pub revision : ℕ

-- LIBZDB_VERSION_NUMBER
pub number : Version → ℕ
number v = v.major * 1000000 + v.minor * 1000 + v.revision

pub is_compatible_with : Version → Version → Bool
is_compatible_with v required =
    ltb required.major v.major
    || (v.major == required.major && ltb required.minor v.minor)
    || (v.major == required.major && v.minor == required.minor && leb required.revision v.revision)

-- Where the minor versions and the revisions of both are less than 1000, a version is compatible with a
-- required one exactly if its number is not less.
pub is_compatible_with-number :
    (v required : Version)
    → v.minor < 1000
    → v.revision < 1000
    → required.minor < 1000
    → required.revision < 1000
    → (is_compatible_with v required ≡ true) ↔ (number required ≤ number v)
unfolding is_compatible_with number
is_compatible_with-number v required a b c d = ground arith
