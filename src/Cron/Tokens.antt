-- ===== src/Cron/Tokens.antt =====
-- What an accepted schedule can hold.
use mathlib.Core.Path.{subst}
use opendeploy.Common.{
  ℕ, zero, suc, ap, ◌∙◌, ◌++◌, ◌≡◌, refl, Bool, true, not, Option, List, [], ◌∷◌, ok, ◌==◌, ==_iff,
  all, keep, length, arith,
}
use opendeploy.Common.Text.{Text, space_width, add_head}
use opendeploy.Cron.Schedule.{is_empty, spans, fields, is_token_char, is_token, validate_expression}

-- the text without its white space, as strings.Map makes it from unicode.IsSpace
unfoldable pub without_space : ℕ → Text → Text
unfolding space_width
without_space skip [] = []
without_space (suc skip) (c ∷ s) = without_space skip s
without_space zero (c ∷ s) = elim (space_width (c ∷ s)) [
  | zero ↦ c ∷ without_space zero s
  | suc n ↦ without_space n s
]

abbrev join : List Text → Text
join [] = []
join (f ∷ fs) = f ++ join fs

join-add_head : (c : ℕ) (fs : List Text) → join (add_head c fs) ≡ c ∷ join fs
unfolding add_head
join-add_head c [] = refl
join-add_head c (f ∷ fs) = refl

-- the parts between white space are the text without it
join-spans : (skip : ℕ) (s : Text) → join (spans skip s) ≡ without_space skip s
unfolding spans without_space
join-spans zero [] = refl
join-spans (suc skip) [] = refl
join-spans (suc skip) (c ∷ s) = join-spans skip s
join-spans zero (c ∷ s) = go (space_width (c ∷ s)) (join-spans zero s) (λ n. join-spans n s)
  where
    go :
        (w : ℕ)
        → join (spans zero s) ≡ without_space zero s
        → ((n : ℕ) → join (spans n s) ≡ without_space n s)
        → join (elim w [ zero ↦ add_head c (spans zero s) | suc n ↦ [] ∷ spans n s ])
          ≡ elim w [ zero ↦ c ∷ without_space zero s | suc n ↦ without_space n s ]
    go zero e k = join-add_head c (spans zero s) ∙ ap (λ t. c ∷ t) e
    go (suc n) e k = k n

join-keep : (fs : List Text) → join (keep (λ f. not (is_empty f)) fs) ≡ join fs
join-keep [] = refl
join-keep ([] ∷ fs) = join-keep fs
join-keep ((c ∷ f) ∷ fs) = ap (λ t. (c ∷ f) ++ t) (join-keep fs)

all-append : (f : ℕ → Bool) (s t : Text) → all f s ≡ true → all f t ≡ true → all f (s ++ t) ≡ true
all-append f [] t h k = k
all-append f (c ∷ s) t h k = ground (arith, all-append f s t)

join-is_token : (fs : List Text) → all is_token fs ≡ true → all is_token_char (join fs) ≡ true
join-is_token [] h = refl
join-is_token (f ∷ fs) h =
    all-append is_token_char f (join fs) (ground arith) (join-is_token fs (ground arith))

-- An accepted schedule has five fields, and without its white space, that of Unicode included, it has
-- no byte but digits and `*/?,LW#-`.
pub validate_expression_ok :
    (sscanf : Text → Option ℕ) (expression : Text)
    → validate_expression sscanf expression ≡ ok tt
    → (length (fields expression) ≡ 5) × (all is_token_char (without_space zero expression) ≡ true)
unfolding validate_expression
validate_expression_ok sscanf expression h =
    let five : (length (fields expression) == 5) ≡ true = ground arith in
    let tokens : all is_token (fields expression) ≡ true = ground arith in
    let joined : join (fields expression) ≡ without_space zero expression =
      unfold fields in join-keep (spans zero expression) ∙ join-spans zero expression in
    (
      (==_iff (length (fields expression)) 5).0 five,
      subst (λ t. all is_token_char t ≡ true) joined (join-is_token (fields expression) tokens),
    )
