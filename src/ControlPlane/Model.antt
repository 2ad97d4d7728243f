-- ===== src/ControlPlane/Model.antt =====
-- The state of manager.go. A `*session` is a pointer into a heap, since a handler may hold a session
-- that the map has already replaced; a waiter is a channel with room for one result.
use opendeploy.Common.{
  ℕ, suc, Bool, true, false, Option, none, some, List, [], ◌∷◌, String, str_eq, any, not, Result,
  ok, ◌>>◌, refuse_if, if◌then◌else◌, ◌==◌,
}
use opendeploy.Common.Text.{Text}
use opendeploy.Common.Keyed.{Keyed, lookup}
use opendeploy.ControlPlane.Capabilities.{api_version}

pub data Error : Type 0 where
  agent_offline connection_closed canceled : Error
  capability_absent : Error
  unsupported_protocol : ℕ → Error
  unsupported_api : String → Error
  -- the text that the Agent reported
  remote : String → Error

abbrev pub protocol_version : ℕ
protocol_version = 1

-- agentv1.AgentHello, the fields that Core reads
pub record AgentHello : Type 0 where
  pub server_id : String
  pub hello_protocol : ℕ
  pub hello_api : String
  pub hello_agent : String
  pub hello_capabilities : List String

-- agentv1.CommandResult
pub record CommandResult : Type 0 where
  pub command_id : String
  pub success : Bool
  pub payload : Text
  pub error_text : String

pub data PendingResult : Type 0 where
  result : CommandResult → PendingResult
  failure : Error → PendingResult

-- agentv1.CoreMessage
pub data CoreMessage : Type 0 where
  command : String → Text → Text → ℕ → CoreMessage
  subscribe : String → Text → Text → CoreMessage
  cancel : String → CoreMessage

pub record Session : Type 0 where
  pub id : String
  pub owner : String
  pub session_api : String
  pub session_agent : String
  pub capabilities : List String
  pub connected_at : ℕ
  pub last_seen : ℕ
  pub send : List CoreMessage
  pub done : Bool
  pub pending : Keyed ℕ
  pub streams : Keyed ℕ

pub record World : Type 0 where
  -- Manager.sessions
  pub sessions : String → Option ℕ
  pub heap : ℕ → Session
  -- the next pointer to allocate
  pub next : ℕ
  -- what each waiter's channel holds
  pub waiters : ℕ → Option PendingResult

abbrev pub assign {ℓ} : {V : Type ℓ} → (String → V) → String → V → String → V
assign m k v j = if str_eq k j then v else m j

abbrev pub store {ℓ} : {V : Type ℓ} → (ℕ → V) → ℕ → V → ℕ → V
store m p v q = if p == q then v else m q

abbrev pub has : List String → String → Bool
has xs x = any (λ y. str_eq y x) xs

-- a send on a channel of capacity one, under `select … default`
unfoldable pub offer : ℕ → PendingResult → (ℕ → Option PendingResult) → ℕ → Option PendingResult
offer c r ws d = elim (ws c) [ none ↦ store ws c (some r) d | some old ↦ ws d ]

-- the loop of `close` over the waiters
unfoldable pub fail_all : Error → Keyed ℕ → (ℕ → Option PendingResult) → ℕ → Option PendingResult
fail_all e [] ws = ws
fail_all e ((id, c) ∷ rest) ws = fail_all e rest (offer c (failure e) ws)

abbrev pub closed : Session → Session
closed s = record s { done = true; pending = []; streams = [] }

-- session.close
unfoldable pub close : ℕ → Error → World → World
close p e w =
    let s = w.heap p in
    if s.done
    then w
    else record w { heap = store w.heap p (closed s); waiters = fail_all e s.pending w.waiters }

unfoldable pub close_previous : Option ℕ → World → World
close_previous none w = w
close_previous (some p) w = close p connection_closed w

unfoldable pub open_session : AgentHello → String → ℕ → Session
open_session hello id now = record {
  id = id;
  owner = hello.server_id;
  session_api = if str_eq hello.hello_api "" then api_version else hello.hello_api;
  session_agent = hello.hello_agent;
  capabilities = hello.hello_capabilities;
  connected_at = now;
  last_seen = now;
  send = [];
  done = false;
  pending = [];
  streams = [];
}

abbrev pub forget : String → World → World
forget k w = record w { sessions = assign w.sessions k none }

-- the new session is allocated, and filed under its server
unfoldable pub file_session : Session → World → World
file_session s w = record w {
  sessions = assign w.sessions s.owner (some w.next);
  heap = store w.heap w.next s;
  next = suc w.next;
}

-- the part of `register` under the manager's lock
unfoldable pub install : Session → World → World
install s w = file_session s (close_previous (w.sessions s.owner) w)

-- Manager.register; `id` is the new UUID and `now` the clock.
unfoldable pub register : AgentHello → String → ℕ → World → Result Error (ℕ × World)
register hello id now w = do
  refuse_if (not (hello.hello_protocol == protocol_version))
      (unsupported_protocol hello.hello_protocol)
  refuse_if (if str_eq hello.hello_api "" then false else not (str_eq hello.hello_api api_version))
      (unsupported_api hello.hello_api)
  ok (w.next, install (open_session hello id now) w)

abbrev pub is_pointer : Option ℕ → ℕ → Bool
is_pointer none p = false
is_pointer (some q) p = q == p

-- the section of Manager.unregister under m.mu: only the session that is still current leaves the map
unfoldable pub unregister_entry : ℕ → World → World
unregister_entry p w =
    let owner = (w.heap p).owner in if is_pointer (w.sessions owner) p then forget owner w else w

-- Manager.unregister with no other thread between its two sections
unfoldable pub unregister : ℕ → World → World
unregister p w = close p connection_closed (unregister_entry p w)

-- Manager.Disconnect with no other thread between its two sections: the look-up and deletion under
-- m.mu, and the close under the session's lock
unfoldable pub disconnect : String → World → World
disconnect server w = close_previous (w.sessions server) (forget server w)

-- session.touch
unfoldable pub touch : ℕ → ℕ → World → World
touch p now w = record w { heap = store w.heap p (record (w.heap p) { last_seen = now }) }

unfoldable pub is_online : World → String → Bool
is_online w server = elim (w.sessions server) [ none ↦ false | some p ↦ true ]

unfoldable pub has_capability : World → String → String → Bool
has_capability w server capability = elim (w.sessions server) [
  | none ↦ false
  | some p ↦ has (w.heap p).capabilities capability
]

-- session.resolve: a late or duplicate result is dropped.
unfoldable pub resolve : ℕ → CommandResult → World → World
resolve p r w = elim (lookup r.command_id (w.heap p).pending) [
  | none ↦ w
  | some c ↦ record w { waiters = offer c (result r) w.waiters }
]
