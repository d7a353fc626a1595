-- ===== src/Frontend/Stroops.antt =====
-- frontend/lib/stellar.ts: amounts of USDC in stroops, as texts. Texts are lists of character codes,
-- and amounts are not negative.
use carbonledger.Base.{
  ℕ, zero, suc, ◌+◌, ◌-◌, ◌*◌, ◌/◌, ◌%◌, Option, none, some, List, [], ◌∷◌, ◌++◌, ◌==◌,
  if◌then◌else◌, length, replicate,
}
use carbonledger.Base.Digits.{digits, value, all_digits}

-- `s.padStart(7, "0")`
abbrev pub pad_start : List ℕ → List ℕ
pad_start s = replicate (7 - length s) b'0' ++ s

-- `s.padEnd(7, "0").slice(0, 7)`
unfoldable pub pad_end : ℕ → List ℕ → List ℕ
pad_end zero s = []
pad_end (suc n) [] = b'0' ∷ pad_end n []
pad_end (suc n) (c ∷ s) = c ∷ pad_end n s

-- `s.replace(/0+$/, "")`
abbrev pub in_front : ℕ → List ℕ → List ℕ
in_front c [] = if c == b'0' then [] else c ∷ []
in_front c (d ∷ s) = c ∷ d ∷ s

unfoldable pub strip_zeros : List ℕ → List ℕ
strip_zeros [] = []
strip_zeros (c ∷ s) = in_front c (strip_zeros s)

-- `frac ? whole.frac : whole`
abbrev pub with_frac : List ℕ → List ℕ → List ℕ
with_frac whole [] = whole
with_frac whole (c ∷ s) = whole ++ b'.' ∷ c ∷ s

unfoldable pub format_stroops : ℕ → List ℕ
unfolding strip_zeros
format_stroops n =
    with_frac (digits (n / 10000000)) (strip_zeros (pad_start (digits (n % 10000000))))

-- The text before the first point, and the text after it up to the next one.
unfoldable pub before_point : List ℕ → List ℕ
before_point [] = []
before_point (c ∷ s) = if c == b'.' then [] else c ∷ before_point s

unfoldable pub after_point : List ℕ → List ℕ
unfolding before_point
after_point [] = []
after_point (c ∷ s) = if c == b'.' then before_point s else after_point s

-- `BigInt(s)` throws where `s` has anything but digits.
unfoldable pub big_int : List ℕ → Option ℕ
big_int s = if all_digits s then some (value s) else none

abbrev pub combine : Option ℕ → Option ℕ → Option ℕ
combine none frac = none
combine (some whole) none = none
combine (some whole) (some frac) = some (whole * 10000000 + frac)

unfoldable pub parse_stroops : List ℕ → Option ℕ
unfolding pad_end before_point after_point big_int
parse_stroops usdc = combine (big_int (before_point usdc)) (big_int (pad_end 7 (after_point usdc)))
