-- ===== src/Frontend/StroopsLaws.antt =====
-- frontend/lib/stellar.ts: a formatted amount is parsed back.
use carbonledger.Base.{
  ℕ, zero, suc, ◌+◌, ◌-◌, ◌/◌, ◌%◌, ◌≤◌, ◌<◌, ◌^◌, true, some, List, [], ◌∷◌, ◌++◌, ◌≡◌, ◌∙◌, refl,
  sym, ap, length, length-append, length-replicate, replicate, arith,
}
use carbonledger.Base.Digits.{
  is_digit, all_digits, digits, digits_from, value, value_from, value-digits,
}
use carbonledger.Frontend.Stroops.{
  pad_start, pad_end, in_front, with_frac, strip_zeros, format_stroops, before_point, after_point,
  big_int, parse_stroops,
}

all_digits-digits_from :
    (fuel n : ℕ) (acc : List ℕ) → all_digits acc ≡ true → all_digits (digits_from fuel n acc) ≡ true
unfolding digits_from
all_digits-digits_from zero n acc h = h
all_digits-digits_from (suc fuel) n acc h =
    ground (arith, all_digits-digits_from fuel (n / 10) ((b'0' + n % 10) ∷ acc))

-- A number below `10 ^ suc k` has `suc k` digits at most.
length-digits_from :
    (k fuel n : ℕ) (acc : List ℕ)
    → n < 10 ^ suc k
    → length (digits_from fuel n acc) ≤ suc k + length acc
unfolding digits_from
length-digits_from k zero n acc h = omega arith
length-digits_from zero (suc fuel) n acc h = ground arith
length-digits_from (suc k) (suc fuel) n acc h =
    ground (arith, length-digits_from k fuel (n / 10) ((b'0' + n % 10) ∷ acc))

value_from-zeros : (n : ℕ) (s : List ℕ) → value_from 0 (replicate n b'0' ++ s) ≡ value_from 0 s
unfolding value_from
value_from-zeros zero s = refl
value_from-zeros (suc n) s = ground (arith, value_from-zeros n s)

all_digits-zeros :
    (n : ℕ) (s : List ℕ) → all_digits s ≡ true → all_digits (replicate n b'0' ++ s) ≡ true
all_digits-zeros zero s h = h
all_digits-zeros (suc n) s h = ground (arith, all_digits-zeros n s h)

pad_end-in_front : (n c : ℕ) (s : List ℕ) → pad_end (suc n) (in_front c s) ≡ c ∷ pad_end n s
unfolding pad_end
pad_end-in_front n c [] = ground arith
pad_end-in_front n c (d ∷ s) = refl

all_digits-in_front :
    (c : ℕ) (s : List ℕ)
    → is_digit c ≡ true
    → all_digits s ≡ true
    → all_digits (in_front c s) ≡ true
all_digits-in_front c [] h k = ground arith
all_digits-in_front c (d ∷ s) h k = ground arith

-- The zeros that are taken from the end of a text are put back by padding to its length.
pad_end-strip_zeros : (s : List ℕ) → pad_end (length s) (strip_zeros s) ≡ s
unfolding pad_end strip_zeros
pad_end-strip_zeros [] = refl
pad_end-strip_zeros (c ∷ s) =
    pad_end-in_front (length s) c (strip_zeros s) ∙ ap (λ t. c ∷ t) (pad_end-strip_zeros s)

before_point-digits : (s t : List ℕ) → all_digits s ≡ true → before_point (s ++ b'.' ∷ t) ≡ s
unfolding before_point
before_point-digits [] t h = refl
before_point-digits (c ∷ s) t h = ground (arith, before_point-digits s t)

before_point-all : (s : List ℕ) → all_digits s ≡ true → before_point s ≡ s
unfolding before_point
before_point-all [] h = refl
before_point-all (c ∷ s) h = ground (arith, before_point-all s)

after_point-digits :
    (s t : List ℕ) → all_digits s ≡ true → after_point (s ++ b'.' ∷ t) ≡ before_point t
unfolding after_point
after_point-digits [] t h = refl
after_point-digits (c ∷ s) t h = ground (arith, after_point-digits s t)

after_point-all : (s : List ℕ) → all_digits s ≡ true → after_point s ≡ []
unfolding after_point
after_point-all [] h = refl
after_point-all (c ∷ s) h = ground (arith, after_point-all s)

all_digits-strip_zeros : (s : List ℕ) → all_digits s ≡ true → all_digits (strip_zeros s) ≡ true
unfolding strip_zeros
all_digits-strip_zeros [] h = refl
all_digits-strip_zeros (c ∷ s) h =
    all_digits-in_front c (strip_zeros s) (ground arith) (all_digits-strip_zeros s (ground arith))

-- The seven digits of the part behind the point.
abbrev padded : ℕ → List ℕ
padded n = pad_start (digits (n % 10000000))

length-padded : (n : ℕ) → length (padded n) ≡ 7
length-padded n =
    let m = n % 10000000 in
    omega (
      arith,
      length-append (replicate (7 - length (digits m)) b'0') (digits m),
      length-replicate {A = ℕ} (7 - length (digits m)) b'0',
      length-digits_from 6 (suc m) m [] (omega arith),
    )

all_digits-padded : (n : ℕ) → all_digits (padded n) ≡ true
all_digits-padded n =
    all_digits-zeros (7 - length (digits (n % 10000000))) (digits (n % 10000000))
      (all_digits-digits_from (suc (n % 10000000)) (n % 10000000) [] refl)

value-padded : (n : ℕ) → value (padded n) ≡ n % 10000000
value-padded n =
    value_from-zeros (7 - length (digits (n % 10000000))) (digits (n % 10000000))
    ∙ value-digits (n % 10000000)

-- What is left and right of the point.
parts :
    (whole frac : List ℕ)
    → all_digits whole ≡ true
    → all_digits frac ≡ true
    → (before_point (with_frac whole frac) ≡ whole) × (after_point (with_frac whole frac) ≡ frac)
parts whole [] h k = (before_point-all whole h, after_point-all whole h)
parts whole (c ∷ s) h k = (
  before_point-digits whole (c ∷ s) h,
  after_point-digits whole (c ∷ s) h ∙ before_point-all (c ∷ s) k,
)

-- The text that an amount is formatted to is parsed to the same amount.
pub parse_stroops-format_stroops : (n : ℕ) → parse_stroops (format_stroops n) ≡ some n
unfolding parse_stroops format_stroops big_int
parse_stroops-format_stroops n =
    let whole = digits (n / 10000000) in
    let whole_digits = all_digits-digits_from (suc (n / 10000000)) (n / 10000000) [] refl in
    let frac_digits = all_digits-padded n in
    let (left, right) =
      parts whole (strip_zeros (padded n)) whole_digits
        (all_digits-strip_zeros (padded n) frac_digits) in
    let restored : pad_end 7 (strip_zeros (padded n)) ≡ padded n =
      ap (λ k. pad_end k (strip_zeros (padded n))) (sym (length-padded n))
      ∙ pad_end-strip_zeros (padded n) in
    ground (
      arith,
      left,
      right,
      restored,
      whole_digits,
      frac_digits,
      value-digits (n / 10000000),
      value-padded n,
    )
