-- ===== src/Apperrors/Chain.antt =====
-- What a client sees of a chain of wrapped errors.
use opendeploy.Common.{◌≡◌, ◌∙◌, refl, Option, none, some, String, List, [], ◌∷◌}
use opendeploy.Apperrors.Defs.{
  internal_error, AppError, GoError, plain, wrapped, app_error, app_error_caused, new_error,
  app_caused, find_app, internal, as_app_error, envelope, write_http,
}

-- an error under any number of layers of `fmt.Errorf("…: %w", err)`
abbrev pub layers : List String → GoError → GoError
layers [] e = e
layers (s ∷ ss) e = wrapped s (layers ss e)

find_app-layers : (ss : List String) (e : GoError) → find_app (layers ss e) ≡ find_app e
unfolding find_app
find_app-layers [] e = refl
find_app-layers (s ∷ ss) e = find_app-layers ss e

as_app_error_found : (e : GoError) {a : GoError} → find_app e ≡ some a → as_app_error e ≡ a
unfolding as_app_error
as_app_error_found e h = rw (h, as_app_error)

as_app_error-none :
    (e : GoError)
    → find_app e ≡ none
    → as_app_error e ≡ app_caused 500 internal_error "an unexpected error occurred" e
unfolding as_app_error internal
as_app_error-none e h = rw (h, as_app_error) (rw (h, internal))

internal_found :
    (text : String) (e : GoError) {a : GoError} → find_app e ≡ some a → internal text e ≡ a
unfolding internal
internal_found text e h = rw (h, internal)

-- an AppError, with the cause that it may have
abbrev pub raised : AppError → Option GoError → GoError
raised a none = app_error a
raised a (some cause) = app_error_caused a cause

find_app-raised :
    (a : AppError) (cause : Option GoError) → find_app (raised a cause) ≡ some (raised a cause)
unfolding find_app
find_app-raised a none = refl
find_app-raised a (some cause) = refl

envelope-raised :
    (a : AppError) (cause : Option GoError) (e : GoError)
    → as_app_error e ≡ raised a cause
    → write_http e ≡ envelope a
unfolding write_http
envelope-raised a none e h = rw h
envelope-raised a (some cause) e h = rw h

-- However often an application error is wrapped on its way up, also by Internal, the client gets its own
-- status, code, message, details, advice and context, whatever they are and whatever caused it; nothing of
-- the wrapping texts and of the cause is sent.
pub write_http-layers :
    (outer inner : List String) (text : String) (a : AppError) (cause : Option GoError)
    → write_http (layers outer (internal text (layers inner (raised a cause)))) ≡ envelope a
write_http-layers outer inner text a cause =
    rw (internal_found text (layers inner (raised a cause)) (found inner)) (
      envelope-raised a cause (layers outer (raised a cause))
        (as_app_error_found (layers outer (raised a cause)) (found outer)))
  where
    found : (ss : List String) → find_app (layers ss (raised a cause)) ≡ some (raised a cause)
    found ss = find_app-layers ss (raised a cause) ∙ find_app-raised a cause

-- An error chain with no application error in it reaches the client as a bare internal error: none of
-- its texts is sent.
pub write_http_plain :
    (outer : List String) (text : String)
    → write_http (layers outer (plain text))
      ≡ envelope (new_error 500 internal_error "an unexpected error occurred")
unfolding write_http
write_http_plain outer text = rw (
    as_app_error-none (layers outer (plain text))
      (unfold find_app in find_app-layers outer (plain text)))
