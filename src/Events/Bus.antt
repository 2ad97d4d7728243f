-- ===== src/Events/Bus.antt =====
-- bus.go: subscriptions by event type, and the publication of an event to its handlers. What the handlers
-- change is a state `S` of the program; a handler may panic.
use opendeploy.Common.{
  ℕ, ◌+◌, ◌==◌, Bool, true, false, Option, none, some, List, [], ◌∷◌, ◌++◌, String, if◌then◌else◌,
}
use opendeploy.Common.Keyed.{Keyed, lookup, insert}

pub record Event (P : Type 0) : Type 0 where
  pub event_type : String
  pub payload : P

pub data Outcome : Type 0 where
  done : Outcome
  failed panicked : String → Outcome

abbrev pub Handler : Type 0 → Type 0 → Type 0
Handler P S = Event P → S → Outcome × S

pub record Subscription (P S : Type 0) : Type 0 where
  pub id : ℕ
  pub handler : Handler P S

pub record MemoryBus (P S : Type 0) : Type 0 where
  pub subs : Keyed (List (Subscription P S))
  pub seq : ℕ

abbrev pub new_memory_bus : {P S : Type 0} → MemoryBus P S
new_memory_bus = record { subs = []; seq = 0 }

-- a missing key has no subscriptions
abbrev pub listed : {A : Type 0} → Option (List A) → List A
listed none = []
listed (some l) = l

abbrev pub subs_of : {P S : Type 0} → String → MemoryBus P S → List (Subscription P S)
subs_of event_type b = listed (lookup event_type b.subs)

-- Subscribe: the bus, and the id that the returned function removes
unfoldable pub subscribe : {P S : Type 0} → String → Handler P S → MemoryBus P S → ℕ × MemoryBus P S
subscribe event_type handler b =
    let id = b.seq + 1 in
    (
      id,
      record b {
        seq = id;
        subs =
            insert event_type (subs_of event_type b ++ (record { id = id; handler = handler } ∷ []))
              b.subs;
      },
    )

-- the loop that cuts out the first subscription with the id; `none` if there is none
unfoldable pub cut : {P S : Type 0} → ℕ → List (Subscription P S) → Option (List (Subscription P S))
cut id [] = none
cut id (s ∷ l) =
    let rest = cut id l in
    if s.id == id then some l else elim rest [ none ↦ none | some l' ↦ some (s ∷ l') ]

-- the function that Subscribe returns
unfoldable pub unsubscribe : {P S : Type 0} → String → ℕ → MemoryBus P S → MemoryBus P S
unsubscribe event_type id b = elim (cut id (subs_of event_type b)) [
  | none ↦ b
  | some l ↦ record b { subs = insert event_type l b.subs }
]

-- callHandler: a panic becomes an error
abbrev pub call_error : Outcome → Option String
call_error done = none
call_error (failed e) = some e
call_error (panicked e) = some e

abbrev pub add_error : Option String → List String → List String
add_error none es = es
add_error (some e) es = e ∷ es

-- the loop of Publish over the two copies
unfoldable pub call_all : {P S : Type 0} → List (Subscription P S) → Event P → S → List String × S
call_all [] e s = ([], s)
call_all (h ∷ hs) e s =
    let r = h.handler e s in
    let rest = call_all hs e r.1 in (add_error (call_error r.0) rest.0, rest.1)

pub data PublishError : Type 0 where
  no_event canceled : PublishError
  handlers_failed : List String → PublishError

abbrev pub combined : List String → Option PublishError
combined [] = none
combined (e ∷ es) = some (handlers_failed (e ∷ es))

-- Publish: `none` for a nil event; a cancelled context; else every handler is called
unfoldable pub publish :
    {P S : Type 0} → Bool → Option (Event P) → MemoryBus P S → S → Option PublishError × S
publish live none b s = (some no_event, s)
publish false (some e) b s = (some canceled, s)
publish true (some e) b s =
    let r = call_all (subs_of e.event_type b ++ subs_of "*" b) e s in (combined r.0, r.1)
