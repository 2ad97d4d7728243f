-- ===== src/Common/Text.antt =====
-- Go strings as lists of bytes, with the functions of `strings` that the program calls.
use Prim.Native.Char.{code}
use Prim.Native.Nat.{ℕ, zero, suc}
use Prim.Native.String.{String}
use mathlib.Core.Path.{◌≡◌, refl}
use mathlib.Core.Bool.{Bool, true, false, ◌&&◌, ◌||◌}
use mathlib.Core.List.{List, [], ◌∷◌}
use native.Mathlib.Omega.{arith}
use opendeploy.Common.Tests.{leb, ◌==◌, if◌then◌else◌}
use opendeploy.Common.Lists.{any}

abbrev pub Text : Type 0
Text = List ℕ

-- The bytes of a literal; every literal of the program is ASCII.
abbrev pub codes : String → Text
codes String.[] = []
codes (String.◌∷◌ c s) = code c ∷ codes s

unfoldable pub text_eq : Text → Text → Bool
text_eq [] [] = true
text_eq [] (c ∷ t) = false
text_eq (b ∷ s) [] = false
text_eq (b ∷ s) (c ∷ t) = b == c && text_eq s t

pub text_eq→eq : (s t : Text) → text_eq s t ≡ true → s ≡ t
unfolding text_eq
text_eq→eq [] [] h = refl
text_eq→eq [] (c ∷ t) h = ground arith
text_eq→eq (b ∷ s) [] h = ground arith
text_eq→eq (b ∷ s) (c ∷ t) h = ground (arith, text_eq→eq s t)

pub text_eq_refl : (s : Text) → text_eq s s ≡ true
unfolding text_eq
text_eq_refl [] = refl
text_eq_refl (b ∷ s) = ground (arith, text_eq_refl s)

-- strings.HasPrefix(s, p)
unfoldable pub has_prefix : Text → Text → Bool
has_prefix s [] = true
has_prefix [] (c ∷ p) = false
has_prefix (b ∷ s) (c ∷ p) = b == c && has_prefix s p

-- strings.Contains(s, p)
unfoldable pub contains : Text → Text → Bool
unfolding has_prefix
contains [] p = has_prefix [] p
contains (b ∷ s) p = has_prefix (b ∷ s) p || contains s p

-- strings.ContainsRune(s, c) for an ASCII c
unfoldable pub contains_byte : ℕ → Text → Bool
contains_byte c s = any (λ b. b == c) s

-- strings.ContainsAny(s, cs) for ASCII cs
unfoldable pub contains_any : Text → Text → Bool
unfolding contains_byte
contains_any cs s = any (λ b. contains_byte b cs) s

-- the white space of ASCII
unfoldable pub is_space : ℕ → Bool
is_space c = (leb 9 c && leb c 13) || c == 32

-- The number of bytes of the white space, by unicode.IsSpace, at the start of a text in UTF-8, and 0 if
-- there is none. Its first byte continues no other character, so that bytes that are no UTF-8 hide none.
abbrev pub is_wide_space : ℕ → ℕ → ℕ → Bool
is_wide_space a b c =
    (a == 225 && (b == 154 && c == 128))
    || ((a == 226
          && ((b == 128 && ((leb 128 c && leb c 138) || (c == 168 || (c == 169 || c == 175))))
              || (b == 129 && c == 159)))
        || (a == 227 && (b == 128 && c == 128)))

unfoldable pub space_width : Text → ℕ
unfolding is_space
space_width [] = 0
space_width (a ∷ []) = if is_space a then 1 else 0
space_width (a ∷ b ∷ []) =
    if is_space a then 1 else if a == 194 && (b == 133 || b == 160) then 2 else 0
space_width (a ∷ b ∷ c ∷ s) =
    if is_space a
    then 1
    else if a == 194 && (b == 133 || b == 160)
    then 2
    else if is_wide_space a b c
    then 3
    else 0

-- the text after `skip` bytes, without the white space at its start
unfoldable pub trim_left : ℕ → Text → Text
unfolding space_width
trim_left skip [] = []
trim_left (suc skip) (c ∷ s) = trim_left skip s
trim_left zero (c ∷ s) = elim (space_width (c ∷ s)) [ zero ↦ c ∷ s | suc n ↦ trim_left n s ]

-- the text without the white space at its end
unfoldable pub trim_right : Text → Text
unfolding trim_left
trim_right [] = []
trim_right (c ∷ s) = elim (trim_left zero (c ∷ s)) [ [] ↦ [] | d ∷ t ↦ c ∷ trim_right s ]

-- strings.TrimSpace(s)
unfoldable pub trim_space : Text → Text
unfolding trim_left trim_right
trim_space s = trim_right (trim_left zero s)

-- strings.Split(s, sep) for a separator of one byte: at least one part.
unfoldable pub add_head : ℕ → List Text → List Text
add_head c [] = (c ∷ []) ∷ []
add_head c (p ∷ ps) = (c ∷ p) ∷ ps

unfoldable pub split : Text → ℕ → List Text
unfolding add_head
split [] sep = [] ∷ []
split (c ∷ s) sep = let rest = split s sep in if c == sep then [] ∷ rest else add_head c rest
