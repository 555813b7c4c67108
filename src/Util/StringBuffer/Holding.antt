-- ===== src/Util/StringBuffer/Holding.antt =====
-- What it means that a buffer holds a text: the text, its zero and some slack make up the cells.
use libzdb.Prelude.{
  ℕ, zero, suc, ◌+◌, ◌-◌, ◌≤◌, ◌<◌, ◌≡◌, ◌≢◌, refl, ap, List, [], ◌∷◌, ◌++◌, arith, Text, take, set,
  replicate, length, length-append, length-replicate,
}
use libzdb.Util.StringBuffer.{StringBuffer, c_string, clear, ctor, to_string, terminate}

abbrev pub NoZero : Text → Type 0
NoZero [] = Unit {0}
NoZero (c ∷ t) = (c ≢ 0) × NoZero t

pub NoZero-append : (s t : Text) → NoZero s → NoZero t → NoZero (s ++ t)
NoZero-append [] t hs ht = ht
NoZero-append (c ∷ s) t hs ht = (hs.0, NoZero-append s t hs.1 ht)

-- The cells begin with the text, of which `used` tells the length; what is behind it may be anything.
pub record Begins (S : StringBuffer) (t : Text) (slack : List ℕ) : Type 0 where
  pub cells : S.buffer ≡ t ++ slack
  pub used_length : S.used ≡ length t
  pub length_cells : S.length ≡ length t + length slack

-- The buffer holds the text as a C string.
pub record Holds (S : StringBuffer) (t : Text) : Type 0 where
  pub slack : List ℕ
  pub begins : Begins S t (0 ∷ slack)
  pub no_zero : NoZero t

pub c_string-append : (t : Text) (b : List ℕ) → NoZero t → c_string (t ++ 0 ∷ b) ≡ t
unfolding c_string
c_string-append [] b h = refl
c_string-append (c ∷ t) b h = ground (arith, c_string-append t b h.1)

-- The text that is held is the one that `StringBuffer_toString` shows, and its length is known.
pub to_string-Holds :
    (S : StringBuffer) (t : Text) → Holds S t → (to_string S ≡ t) × (S.used ≡ length t)
unfolding to_string
to_string-Holds S t h =
    (rw h.begins.cells (c_string-append t h.slack h.no_zero), h.begins.used_length)

set_zero :
    (b : List ℕ)
    → 0 < length b
    → (rest : List ℕ) × (set b 0 0 ≡ 0 ∷ rest) × (length b ≡ suc (length rest))
set_zero [] h = absurd (omega arith)
set_zero (c ∷ b) h = (b, refl, refl)

set-append : (t : Text) (c v : ℕ) (b : List ℕ) → set (t ++ c ∷ b) (length t) v ≡ t ++ v ∷ b
set-append [] c v b = refl
set-append (x ∷ t) c v b = ap (◌∷◌ x) (set-append t c v b)

-- Writing the zero behind a text with some slack makes the buffer hold it.
pub terminate-Holds :
    (S : StringBuffer) (t : Text) (c : ℕ) (b : List ℕ)
    → Begins S t (c ∷ b)
    → NoZero t
    → Holds (terminate S) t
unfolding terminate
terminate-Holds S t c b h n = record {
  slack = b;
  begins = record {
    cells = rw (h.cells, h.used_length) (set-append t c 0 b);
    used_length = h.used_length;
    length_cells = h.length_cells;
  };
  no_zero = n;
}

-- `StringBuffer_clear` leaves the empty text, whatever the buffer held.
pub clear-Holds : (S : StringBuffer) (t : Text) → Holds S t → Holds (clear S) []
unfolding clear
clear-Holds S t h =
    let (rest, e, l) =
      set_zero S.buffer (rw h.begins.cells (omega (arith, length-append t (0 ∷ h.slack)))) in
    record {
      slack = rest;
      begins = record {
        cells = e;
        used_length = refl;
        length_cells = omega (
          arith,
          l,
          h.begins.length_cells,
          ap (λ (b : List ℕ). length b) h.begins.cells,
          length-append t (0 ∷ h.slack),
        );
      };
      no_zero = tt;
    }

-- A buffer of at least one cell starts out empty.
pub ctor-Holds : (junk hint : ℕ) → 0 < hint → Holds (ctor junk hint) []
unfolding ctor
ctor-Holds junk hint h =
    let (rest, e, l) = set_zero (replicate hint junk) (omega (arith, length-replicate hint junk)) in
    record {
      slack = rest;
      begins = record {
        cells = e;
        used_length = refl;
        length_cells = omega (arith, l, length-replicate hint junk);
      };
      no_zero = tt;
    }

-- A longer prefix than the text takes all of the text.
pub take-append_ge :
    (t : Text) (b : List ℕ) (n : ℕ) → length t ≤ n → take n (t ++ b) ≡ t ++ take (n - length t) b
take-append_ge [] b n h = ap (λ k. take k b) (omega arith)
take-append_ge (c ∷ t) b zero h = absurd (omega arith)
take-append_ge (c ∷ t) b (suc n) h =
    let e : suc n - suc (length t) ≡ n - length t = omega arith in
    rw e (ap (◌∷◌ c) (take-append_ge t b n (omega arith)))
