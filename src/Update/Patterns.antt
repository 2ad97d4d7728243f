-- ===== src/Update/Patterns.antt =====
-- The regular expressions of manifest.go, as tests on bytes.
use opendeploy.Common.{
  ℕ, ◌-◌, Bool, true, false, ◌&&◌, ◌||◌, [], ◌∷◌, all, length, leb, ◌==◌, if◌then◌else◌,
}
use opendeploy.Common.Text.{Text}

abbrev pub is_digit : ℕ → Bool
is_digit c = leb b'0' c && leb c b'9'

abbrev pub is_upper : ℕ → Bool
is_upper c = leb b'A' c && leb c b'Z'

abbrev pub is_lower : ℕ → Bool
is_lower c = leb b'a' c && leb c b'z'

abbrev pub is_alnum : ℕ → Bool
is_alnum c = is_digit c || (is_upper c || is_lower c)

abbrev pub is_hex : ℕ → Bool
is_hex c = is_digit c || (leb b'a' c && leb c b'f')

-- `^[0-9a-f]{n}$`
unfoldable pub is_hex_text : ℕ → Text → Bool
is_hex_text n s = length s == n && all is_hex s

-- what may follow the third number: nothing, or `-` and at least one of `[0-9A-Za-z.-]`
unfoldable pub is_suffix : Text → Bool
is_suffix [] = true
is_suffix (c ∷ []) = false
is_suffix (c ∷ d ∷ s) = c == b'-' && all (λ b. is_alnum b || (b == b'.' || b == b'-')) (d ∷ s)

-- `\d+`, then a dot and the next number, then the suffix: `dots` are the dots still to come, and `some`
-- digit of the present number has been read or not
unfoldable pub numbers : ℕ → Bool → Text → Bool
numbers dots started [] = started && dots == 0
numbers dots started (c ∷ s) =
    let digit = numbers dots true s in
    let dot = numbers (dots - 1) false s in
    if is_digit c
    then digit
    else if started && (c == b'.' && leb 1 dots)
    then dot
    else started && (dots == 0 && is_suffix (c ∷ s))

-- `^v?\d+\.\d+\.\d+(?:-[0-9A-Za-z.-]+)?$`
unfoldable pub is_version : Text → Bool
unfolding numbers is_suffix
is_version [] = false
is_version (c ∷ s) = if c == b'v' then numbers 2 false s else numbers 2 false (c ∷ s)
