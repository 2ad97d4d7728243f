-- ===== src/Cron/Schedule.antt =====
-- ValidateExpression and validateCronField of validate.go. `sscanf` is fmt.Sscanf with "%d"; a value below
-- zero does not occur, since a field is cut at its hyphens.
use opendeploy.Common.{
  ℕ, zero, suc, Bool, true, false, not, ◌&&◌, ◌||◌, Option, none, some, List, [], ◌∷◌, Result, ok,
  ◌>>◌, refuse_if, if◌then◌else◌, leb, ◌==◌, all, keep, length,
}
use opendeploy.Common.Text.{Text, codes, text_eq, contains_any, space_width, split, add_head}

pub data CronError : Type 0 where
  not_five_fields unsupported_characters outside : CronError

abbrev pub is_empty : Text → Bool
is_empty [] = true
is_empty (c ∷ s) = false

-- the parts between white space, after `skip` bytes
unfoldable pub spans : ℕ → Text → List Text
unfolding space_width add_head
spans skip [] = [] ∷ []
spans (suc skip) (c ∷ s) = spans skip s
spans zero (c ∷ s) = elim (space_width (c ∷ s)) [
  | zero ↦ add_head c (spans zero s)
  | suc n ↦ [] ∷ spans n s
]

-- strings.Fields: the parts between white space that are not empty
unfoldable pub fields : Text → List Text
unfolding spans
fields s = keep (λ f. not (is_empty f)) (spans zero s)

-- the class of cronTokenPattern
abbrev pub is_token_char : ℕ → Bool
is_token_char c =
    (leb b'0' c && leb c b'9')
    || (c == b'*'
        || (c == b'/'
            || (c == b'?'
                || (c == b',' || (c == b'L' || (c == b'W' || (c == b'#' || c == b'-')))))))

abbrev pub is_token : Text → Bool
is_token f = not (is_empty f) && all is_token_char f

-- the part before the first separator, strings.SplitN(s, sep, 2)[0]
unfoldable pub before : Text → ℕ → Text
before [] sep = []
before (c ∷ s) sep = let rest = before s sep in if c == sep then [] else c ∷ rest

abbrev pub within : Option ℕ → ℕ → ℕ → Bool
within none low high = false
within (some n) low high = leb low n && leb n high

module _ (sscanf : Text → Option ℕ) where
  -- one part between commas
  unfoldable pub part_ok : ℕ → ℕ → Text → Bool
  part_ok low high part =
      let base = before part b'/' in
      text_eq base (codes "*")
      || (text_eq base (codes "?")
          || (contains_any (codes "LW#") base
              || all (λ value. within (sscanf value) low high) (split base b'-')))

  unfoldable pub validate_cron_field : Text → ℕ → ℕ → Result CronError (Unit {0})
  validate_cron_field field low high =
      refuse_if (not (all (part_ok low high) (split field b','))) outside

  abbrev pub ranges : List (ℕ × ℕ)
  ranges = (0, 59) ∷ (0, 23) ∷ (1, 31) ∷ (1, 12) ∷ (0, 7) ∷ []

  unfoldable pub check_fields : List Text → List (ℕ × ℕ) → Result CronError (Unit {0})
  check_fields (f ∷ fs) ((low, high) ∷ rs) = validate_cron_field f low high >> check_fields fs rs
  check_fields fs rs = ok tt

  unfoldable pub validate_expression : Text → Result CronError (Unit {0})
  validate_expression expression = do
    refuse_if (not (length (fields expression) == 5)) not_five_fields
    refuse_if (not (all is_token (fields expression))) unsupported_characters
    check_fields (fields expression) ranges
