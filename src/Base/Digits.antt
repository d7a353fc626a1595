-- ===== src/Base/Digits.antt =====
-- Texts of decimal digits, as lists of character codes: their value, and their order as texts.
use Prim.Native.Nat.{ℕ, zero, suc, ◌+◌, ◌-◌, ◌*◌, ◌/◌, ◌%◌, ◌<◌}
use mathlib.Core.Path.{◌≡◌}
use mathlib.Core.Logic.{inl, inr}
use mathlib.Core.Bool.{Bool, true, false, ◌&&◌}
use mathlib.Core.List.{List, [], ◌∷◌}
use native.Mathlib.Omega.{arith}
use carbonledger.Base.Tests.{ltb, leb, ◌==◌, if◌then◌else◌, Bool-cases}
use carbonledger.Base.Lists.{length}

abbrev pub is_digit : ℕ → Bool
is_digit c = leb b'0' c && leb c b'9'

abbrev pub all_digits : List ℕ → Bool
all_digits [] = true
all_digits (c ∷ s) = is_digit c && all_digits s

-- `/^[0-9]+$/.test(s)`
abbrev pub is_number_text : List ℕ → Bool
is_number_text [] = false
is_number_text (c ∷ s) = is_digit c && all_digits s

-- `BigInt(s)`, over the digits that are left.
unfoldable pub value_from : ℕ → List ℕ → ℕ
value_from acc [] = acc
value_from acc (c ∷ s) = value_from (acc * 10 + (c - b'0')) s

abbrev pub value : List ℕ → ℕ
value = value_from 0

-- Order by the first character that differs; a text comes after its beginnings.
unfoldable pub text_leb : List ℕ → List ℕ → Bool
text_leb [] t = true
text_leb (c ∷ s) [] = false
text_leb (c ∷ s) (d ∷ t) = if c == d then text_leb s t else ltb c d

value_from_mono :
    (s t : List ℕ) (a b : ℕ)
    → length s ≡ length t
    → all_digits s ≡ true
    → all_digits t ≡ true
    → a < b
    → value_from a s < value_from b t
unfolding value_from
value_from_mono [] [] a b e hs ht h = h
value_from_mono [] (d ∷ t) a b e hs ht h = absurd (omega arith)
value_from_mono (c ∷ s) [] a b e hs ht h = absurd (omega arith)
value_from_mono (c ∷ s) (d ∷ t) a b e hs ht h =
    value_from_mono s t (a * 10 + (c - b'0')) (b * 10 + (d - b'0')) (omega arith) (ground arith)
      (ground arith) (ground arith)

-- On numbers with as many digits the two orders agree.
pub text_leb-eq-leb :
    (s t : List ℕ) (a : ℕ)
    → length s ≡ length t
    → all_digits s ≡ true
    → all_digits t ≡ true
    → text_leb s t ≡ leb (value_from a s) (value_from a t)
unfolding value_from text_leb
text_leb-eq-leb [] [] a e hs ht = ground arith
text_leb-eq-leb [] (d ∷ t) a e hs ht = absurd (omega arith)
text_leb-eq-leb (c ∷ s) [] a e hs ht = absurd (omega arith)
text_leb-eq-leb (c ∷ s) (d ∷ t) a e hs ht = ground (
  arith,
  text_leb-eq-leb s t (a * 10 + (c - b'0')),
  value_from_mono s t (a * 10 + (c - b'0')) (a * 10 + (d - b'0')),
  value_from_mono t s (a * 10 + (d - b'0')) (a * 10 + (c - b'0')),
)

-- `s === t`
abbrev pub texts_eq : List ℕ → List ℕ → Bool
texts_eq [] [] = true
texts_eq (c ∷ s) (d ∷ t) = c == d && texts_eq s t
texts_eq _ _ = false

-- The decimal digits of a number, in front of the digits that are already there.
unfoldable pub digits_from : ℕ → ℕ → List ℕ → List ℕ
digits_from zero n acc = acc
digits_from (suc fuel) n acc =
    let rest = digits_from fuel (n / 10) ((b'0' + n % 10) ∷ acc) in
    if ltb n 10 then (b'0' + n) ∷ acc else rest

-- `n.toString()`, `String(n)`
abbrev pub digits : ℕ → List ℕ
digits n = digits_from (suc n) n []

value_from-digits_from :
    (fuel n : ℕ) (acc : List ℕ)
    → n < fuel
    → value_from 0 (digits_from fuel n acc) ≡ value_from n acc
unfolding value_from digits_from
value_from-digits_from zero n acc h = absurd (omega arith)
value_from-digits_from (suc fuel) n acc h = elim (Bool-cases (ltb n 10)) [
  | inl small ↦ ground arith
  | inr large ↦ ground (arith, value_from-digits_from fuel (n / 10) ((b'0' + n % 10) ∷ acc))
]

pub value-digits : (n : ℕ) → value (digits n) ≡ n
unfolding value_from
value-digits n = value_from-digits_from (suc n) n [] (omega arith)
