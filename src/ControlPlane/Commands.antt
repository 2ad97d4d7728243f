-- ===== src/ControlPlane/Commands.antt =====
-- Dispatch and Subscribe of manager.go. A call runs as a thread: its atomic parts are functions, and
-- `Turn` is what one `select` may do next, given what the other threads did to the world meanwhile.
use opendeploy.Common.{
  ℕ, ◌≡◌, true, not, Option, none, some, [], ◌∷◌, ◌++◌, String, Result, ok, err, ◌>>=◌, ◌>>◌,
  refuse_if, if◌then◌else◌, ltb, length,
}
use opendeploy.Common.Text.{Text}
use opendeploy.Common.Keyed.{lookup, remove, insert}
use opendeploy.ControlPlane.Capabilities.{required_for_command}
use opendeploy.ControlPlane.Model.{
  Error, agent_offline, connection_closed, canceled, capability_absent, remote, PendingResult,
  result, failure, CoreMessage, Session, World, store, has,
}

-- Manager.requireCommandCapability
unfoldable pub require_command_capability : Session → Text → Result Error (Unit {0})
require_command_capability s kind = elim (required_for_command kind) [
  | none ↦ err capability_absent
  | some required ↦ refuse_if (not (has s.capabilities required)) capability_absent
]

abbrev pub find_session : World → String → Result Error ℕ
find_session w server = elim (w.sessions server) [ none ↦ err agent_offline | some p ↦ ok p ]

-- The entry of Dispatch and of Subscribe: the look-up under m.mu, and the test of the capabilities,
-- which no one changes once the session is made.
unfoldable pub route : String → Text → World → Result Error ℕ
route server kind w = do p ← find_session w server; require_command_capability (w.heap p) kind; ok p

-- the section of Dispatch under the lock of the session that it found: `c` is the new waiter
unfoldable pub file_waiter : ℕ → String → ℕ → World → World
file_waiter p id c w =
    let s = w.heap p in
    record w {
      heap = store w.heap p (record s { pending = insert id c s.pending });
      waiters = store w.waiters c none;
    }

abbrev pub send_capacity : ℕ
send_capacity = 64

-- a send on `s.send`, when its buffer has room
unfoldable pub enqueue : ℕ → CoreMessage → World → World
enqueue p m w =
    let s = w.heap p in record w { heap = store w.heap p (record s { send = s.send ++ m ∷ [] }) }

-- the deferred removal of the waiter
unfoldable pub dispatch_end : ℕ → String → World → World
dispatch_end p id w =
    let s = w.heap p in
    record w { heap = store w.heap p (record s { pending = remove id s.pending }) }

-- what the caller of Dispatch gets for a received outcome
unfoldable pub outcome_result : PendingResult → Result Error Text
outcome_result (failure e) = err e
outcome_result (result r) = if r.success then ok r.payload else err (remote r.error_text)

pub data Phase : Type 0 where
  sending waiting : Phase
  leaving returned : Result Error Text → Phase

-- One step of a Dispatch with id `id` and waiter `c` on session `p`, for the command `m`.
pub data Turn (p : ℕ) (id : String) (c : ℕ) (m : CoreMessage)
    : Phase → World → Phase → World → Type 0 where
  send_command :
      {w : World}
      → ltb (length (w.heap p).send) send_capacity ≡ true
      → Turn p id c m sending w waiting (enqueue p m w)
  send_closed :
      {w : World}
      → (w.heap p).done ≡ true
      → Turn p id c m sending w (leaving (err connection_closed)) w
  send_canceled : {w : World} → Turn p id c m sending w (leaving (err canceled)) w
  receive :
      {w : World} {r : PendingResult}
      → w.waiters c ≡ some r
      → Turn p id c m waiting w
          (leaving (outcome_result r))
          (record w { waiters = store w.waiters c none })
  wait_closed :
      {w : World}
      → (w.heap p).done ≡ true
      → Turn p id c m waiting w (leaving (err connection_closed)) w
  wait_canceled : {w : World} → Turn p id c m waiting w (leaving (err canceled)) w
  return :
      {w : World} {r : Result Error Text}
      → Turn p id c m (leaving r) w (returned r) (dispatch_end p id w)

-- the section of Subscribe under the lock of the session that it found some time ago
unfoldable pub attach_stream : ℕ → String → ℕ → World → Result Error World
attach_stream p id c w = do
  refuse_if (w.heap p).done connection_closed
  let s = w.heap p
  ok (record w { heap = store w.heap p (record s { streams = insert id c s.streams }) })

-- removeStream, run on each way out
unfoldable pub remove_stream : ℕ → String → World → World
remove_stream p id w =
    let s = w.heap p in
    record w { heap = store w.heap p (record s { streams = remove id s.streams }) }

-- session.resolveChunk: the channel that a chunk goes to, if its stream is still known
unfoldable pub resolve_chunk : ℕ → String → World → Option ℕ
resolve_chunk p id w = lookup id (w.heap p).streams
