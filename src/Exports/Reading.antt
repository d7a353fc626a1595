-- ===== src/Exports/Reading.antt =====
-- What a reader of comma separated values makes of the exports.
use carbonledger.Base.{
  ℕ, zero, suc, ◌==◌, Bool, true, false, List, [], ◌∷◌, ◌++◌, map, length, ◌≡◌, refl, ap, ◌∙◌,
  if◌then◌else◌, arith, inl, inr, Bool-cases,
}
use mathlib.Core.List.{append_assoc}
use carbonledger.Exports.Service.{
  Text, quote, comma, text, escape, quoted, join, cell, retirement_row,
}

abbrev push : ℕ → Text × Text → Text × Text
push c (field, rest) = (c ∷ field, rest)

-- A quoted field behind its first quote: a doubled quote is one, and a single one ends the field.
-- `after_quote` says that the character before was a quote.
unfoldable pub read_quoted : (after_quote : Bool) → Text → Text × Text
read_quoted after_quote [] = ([], [])
read_quoted true (c ∷ s) =
    let more = read_quoted false s in if c == quote then push quote more else ([], c ∷ s)
read_quoted false (c ∷ s) =
    let ended = read_quoted true s in
    let more = read_quoted false s in if c == quote then ended else push c more

-- A line of quoted fields.
unfoldable pub read_row : ℕ → Text → List Text
unfolding read_quoted
read_row zero s = []
read_row (suc n) [] = []
read_row (suc n) (c ∷ s) = elim (read_quoted false s).1 [
  | [] ↦ (read_quoted false s).0 ∷ []
  | d ∷ rest ↦ (read_quoted false s).0 ∷ read_row n rest
]

-- A text that does not go on with a quote.
abbrev is_end : Text → Bool
is_end [] = true
is_end (c ∷ s) = if c == quote then false else true

read_quoted-end : (rest : Text) → is_end rest ≡ true → read_quoted true rest ≡ ([], rest)
unfolding read_quoted
read_quoted-end [] h = refl
read_quoted-end (c ∷ rest) h = ground (arith, h)

read_quoted-escape :
    (s rest : Text) → is_end rest ≡ true → read_quoted false (escape s ++ quote ∷ rest) ≡ (s, rest)
unfolding read_quoted escape
read_quoted-escape [] rest h = read_quoted-end rest h
read_quoted-escape (c ∷ s) rest h = elim (Bool-cases (c == quote)) [
  | inl q ↦ ground (arith, q, read_quoted-escape s rest h)
  | inr other ↦ ground (arith, other, read_quoted-escape s rest h)
]

read_quoted-quoted :
    (s rest : Text)
    → is_end rest ≡ true
    → read_quoted false ((escape s ++ quote ∷ []) ++ rest) ≡ (s, rest)
read_quoted-quoted s rest h =
    ap (read_quoted false) (append_assoc (escape s) (quote ∷ []) rest) ∙ read_quoted-escape s rest h

abbrev cells : List Text → List Text
cells ts = map (λ t. cell (text t)) ts

read_row-quoted :
    (n : ℕ) (t : Text) (d : ℕ) (rest : Text)
    → is_end (d ∷ rest) ≡ true
    → read_row (suc n) (quoted t ++ d ∷ rest) ≡ t ∷ read_row n rest
unfolding read_row quoted
read_row-quoted n t d rest h = let e = read_quoted-quoted t (d ∷ rest) h in rw (read_row, e, e)

join-cells :
    (t u : Text) (ts : List Text)
    → join (comma ∷ []) (cells (t ∷ u ∷ ts))
      ≡ quoted t ++ comma ∷ join (comma ∷ []) (cells (u ∷ ts))
unfolding join cell
join-cells t u ts = append_assoc (quoted t) (comma ∷ []) (join (comma ∷ []) (cells (u ∷ ts)))

-- A line of texts of the export, quotes and commas and line ends in them or not, is read back as those
-- texts.
pub read_row-join :
    (ts : List Text) → read_row (length ts) (join (comma ∷ []) (map (λ t. cell (text t)) ts)) ≡ ts
unfolding read_row join cell quoted
read_row-join [] = refl
read_row-join (t ∷ []) = ground (arith, read_quoted-escape t [] refl)
read_row-join (t ∷ u ∷ ts) =
    ap (read_row (length (t ∷ u ∷ ts))) (join-cells t u ts)
    ∙ read_row-quoted (suc (length ts)) t comma (join (comma ∷ []) (cells (u ∷ ts))) refl
    ∙ ap (◌∷◌ t) (read_row-join (u ∷ ts))

-- The columns of the retirements are not quoted: two rows whose texts have a comma at different places
-- are the same line.
retirement_row_confuses :
    (a b c : Text)
    → retirement_row ((a ++ comma ∷ b) ∷ c ∷ []) ≡ retirement_row (a ∷ (b ++ comma ∷ c) ∷ [])
unfolding retirement_row join
retirement_row_confuses a b c = simp append_assoc
