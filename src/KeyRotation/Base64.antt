-- ===== src/KeyRotation/Base64.antt =====
-- backend/src/key-rotation/key-rotation.service.ts: `encryptSecret`, the base64 text of the bytes of
-- a secret.
use carbonledger.Base.{
  ℕ, ◌+◌, ◌-◌, ◌*◌, ◌/◌, ◌%◌, ◌<◌, List, [], ◌∷◌, ◌≡◌, refl, false, ltb, ◌==◌, if◌then◌else◌, arith,
  All,
}

-- The letter of six bits.
unfoldable pub letter : ℕ → ℕ
letter n =
    if ltb n 26
    then n + 65
    else if ltb n 52
    then n + 71
    else if ltb n 62
    then n - 4
    else if n == 62
    then b'+'
    else b'/'

-- `Buffer.from(secret).toString('base64')`
unfoldable pub encrypt_secret : List ℕ → List ℕ
encrypt_secret [] = []
encrypt_secret (a ∷ []) = letter (a / 4) ∷ letter (a % 4 * 16) ∷ b'=' ∷ b'=' ∷ []
encrypt_secret (a ∷ b ∷ []) =
    letter (a / 4) ∷ letter (a % 4 * 16 + b / 16) ∷ letter (b % 16 * 4) ∷ b'=' ∷ []
encrypt_secret (a ∷ b ∷ c ∷ s) =
    letter (a / 4)
    ∷ letter (a % 4 * 16 + b / 16)
    ∷ letter (b % 16 * 4 + c / 64)
    ∷ letter (c % 64)
    ∷ encrypt_secret s

-- The six bits of a letter.
unfoldable pub bits : ℕ → ℕ
bits c =
    if c == b'+'
    then 62
    else if c == b'/'
    then 63
    else if ltb c 60
    then c + 4
    else if ltb c 95
    then c - 65
    else c - 71

-- What anyone who reads the text gets from it, without a key.
unfoldable pub decode : List ℕ → List ℕ
decode (p ∷ q ∷ r ∷ t ∷ s) =
    let rest = decode s in
    let a = bits p * 4 + bits q / 16 in
    let b = bits q % 16 * 16 + bits r / 4 in
    let c = bits r % 4 * 64 + bits t in
    if r == b'=' then a ∷ [] else if t == b'=' then a ∷ b ∷ [] else a ∷ b ∷ c ∷ rest
decode s = []

bits-letter : (n : ℕ) → n < 64 → bits (letter n) ≡ n
unfolding bits letter
bits-letter n h = ground arith

letter_ne_pad : (n : ℕ) → n < 64 → (letter n == b'=') ≡ false
unfolding letter
letter_ne_pad n h = ground arith

-- The text that is stored for a secret gives the secret's bytes back.
pub decode-encrypt_secret :
    (secret : List ℕ) → All (λ c. c < 256) secret → decode (encrypt_secret secret) ≡ secret
unfolding encrypt_secret decode
decode-encrypt_secret [] h = refl
decode-encrypt_secret (a ∷ []) h =
    ground (arith, bits-letter (a / 4) (omega arith), bits-letter (a % 4 * 16) (omega arith))
decode-encrypt_secret (a ∷ b ∷ []) h = ground (
  arith,
  bits-letter (a / 4) (omega arith),
  bits-letter (a % 4 * 16 + b / 16) (omega arith),
  bits-letter (b % 16 * 4) (omega arith),
  letter_ne_pad (b % 16 * 4) (omega arith),
)
decode-encrypt_secret (a ∷ b ∷ c ∷ s) h = ground (
  arith,
  bits-letter (a / 4) (omega arith),
  bits-letter (a % 4 * 16 + b / 16) (omega arith),
  bits-letter (b % 16 * 4 + c / 64) (omega arith),
  letter_ne_pad (b % 16 * 4 + c / 64) (omega arith),
  bits-letter (c % 64) (omega arith),
  letter_ne_pad (c % 64) (omega arith),
  decode-encrypt_secret s,
)
