-- ===== src/Frontend/Texts.antt =====
-- Texts of the client as lists of character codes, with what the pages ask of them.
use carbonledger.Base.{
  ℕ, leb, ◌==◌, ◌&&◌, ◌||◌, not, Bool, true, false, List, [], ◌∷◌, if◌then◌else◌,
}

abbrev pub Text : Type 0
Text = List ℕ

-- The white space and the line ends of JavaScript, which `trim` takes off and `\s` matches.
abbrev pub is_space : ℕ → Bool
is_space c =
    (leb 9 c && leb c 13)
    || (c == 32)
    || (c == 160)
    || (c == 5760)
    || (leb 8192 c && leb c 8202)
    || (c == 8232)
    || (c == 8233)
    || (c == 8239)
    || (c == 8287)
    || (c == 12288)
    || (c == 65279)

abbrev pub is_empty : Text → Bool
is_empty [] = true
is_empty (c ∷ s) = false

-- `!text.trim()`
abbrev pub is_blank : Text → Bool
is_blank [] = true
is_blank (c ∷ s) = is_space c && is_blank s

abbrev pub trim_start : Text → Text
trim_start [] = []
trim_start (c ∷ s) = if is_space c then trim_start s else c ∷ s

abbrev pub trim_end : Text → Text
trim_end [] = []
trim_end (c ∷ s) = if is_blank (c ∷ s) then [] else c ∷ trim_end s

abbrev pub trim : Text → Text
trim s = trim_end (trim_start s)

-- `[^\s@]+` up to the end: a character at least, none a space or an `@`
abbrev pub is_plain : Text → Bool
is_plain [] = true
is_plain (c ∷ s) = not (is_space c) && not (c == b'@') && is_plain s

-- A point that is neither the first nor the last character.
abbrev pub has_inner_point : Text → Bool
has_inner_point [] = false
has_inner_point (c ∷ []) = false
has_inner_point (c ∷ d ∷ []) = false
has_inner_point (c ∷ d ∷ e ∷ s) = (d == b'.') || has_inner_point (d ∷ e ∷ s)

abbrev pub is_domain : Text → Bool
is_domain s = is_plain s && has_inner_point s

-- What stands before and behind the first `@`, the first part not empty.
abbrev pub after_local : Bool → Text → Bool
after_local any [] = false
after_local any (c ∷ s) =
    if c == b'@' then any && is_domain s else not (is_space c) && after_local true s

-- `/^[^\s@]+@[^\s@]+\.[^\s@]+$/.test(s)`
abbrev pub is_email : Text → Bool
is_email = after_local false
