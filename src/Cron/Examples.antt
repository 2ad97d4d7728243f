-- ===== src/Cron/Examples.antt =====
-- The theorem about schedules at a concrete one, and a test.
use opendeploy.Common.{ℕ, zero, ◌≡◌, refl, true, Option, some, ok, all, length, ◌∷◌, ◌++◌}
use opendeploy.Common.Text.{Text, codes, split, contains_any, text_eq}
use opendeploy.Cron.Schedule.{
  fields, spans, is_token_char, before, part_ok, validate_cron_field, check_fields,
  validate_expression,
}
use opendeploy.Cron.Tokens.{without_space, validate_expression_ok}

abbrev five : Text → Option ℕ
five s = some 5

abbrev nightly : Text
nightly = codes "5 5 */2 * 1-5"

-- the same schedule on two lines
abbrev two_lines : Text
two_lines = codes "5 5" ++ (10 ∷ codes "*/2 * 1-5")

validate_expression_ok_example :
    (length (fields nightly) ≡ 5) × (all is_token_char (without_space zero nightly) ≡ true)
unfolding validate_expression check_fields validate_cron_field part_ok before fields spans split
    contains_any text_eq
validate_expression_ok_example = validate_expression_ok five nightly refl

-- the same schedule with the no-break space U+00A0 in it
abbrev no_break : Text
no_break = codes "5" ++ (194 ∷ 160 ∷ codes "5 */2 * 1-5")

no_break_accepted : validate_expression five no_break ≡ ok tt
unfolding validate_expression check_fields validate_cron_field part_ok before fields spans split
    contains_any text_eq
no_break_accepted = refl

-- A line feed between two fields is accepted.
line_feed_accepted : validate_expression five two_lines ≡ ok tt
unfolding validate_expression check_fields validate_cron_field part_ok before fields spans split
    contains_any text_eq
line_feed_accepted = refl
