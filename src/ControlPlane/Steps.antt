-- ===== src/ControlPlane/Steps.antt =====
-- The steps of all threads, in any order. A step is one section under m.mu or under a session's lock, so
-- that other threads run between the sections of one call. `register` closes the replaced session within
-- its section, under m.mu.
use opendeploy.Common.{
  ℕ, ◌<◌, ◌≡◌, ◌≢◌, refl, Bool, true, Option, none, some, String, arith, ok, suc, ap, ◌∙◌, ltb,
  length,
}
use opendeploy.Common.Text.{Text}
use opendeploy.ControlPlane.Model.{
  Error, AgentHello, CommandResult, CoreMessage, subscribe, cancel, PendingResult, result, offer,
  World, connection_closed, store, close, open_session, forget, register, unregister_entry, touch,
}
use opendeploy.ControlPlane.Commands.{
  route, file_waiter, dispatch_end, Phase, Turn, send_command, send_closed, send_canceled, receive,
  wait_closed, wait_canceled, return, attach_stream, remove_stream, enqueue, send_capacity,
}
use opendeploy.ControlPlane.Registry.{
  IsValid, close-IsValid, unlisted, forget-IsValid, register-IsValid, register_ok,
  unregister_entry-IsValid, unregister_entry-absent, touch-IsValid,
}
use opendeploy.ControlPlane.Reconnect.{register_current, next-install}
use opendeploy.ControlPlane.Dispatch.{
  enqueue-IsValid, dispatch_end-IsValid, file_waiter-IsValid, attach_stream-IsValid,
  remove_stream-IsValid,
}

-- The world, and what the threads hold on to between two sections: the sessions that a Dispatch or a
-- Subscribe has found, and those that an Unregister or a Disconnect is about to close.
pub record Threads : Type 0 where
  pub world : World
  pub found : ℕ → Bool
  pub ending : ℕ → Bool

abbrev pub mark : (ℕ → Bool) → Option ℕ → ℕ → Bool
mark m none = m
mark m (some p) = store m p true

abbrev pub with_world : Threads → World → Threads
with_world t w = record t { world = w }

-- One section of any thread: of a handler, of a receive loop, or of a call.
pub data Step (t : Threads) : Threads → Type 0 where
  registered :
      {w : World} {p : ℕ} (hello : AgentHello) (id : String) (now : ℕ)
      → register hello id now t.world ≡ ok (p, w)
      → Step t (with_world t w)
  -- the handler of a session that register has returned
  unregistered :
      (p : ℕ)
      → p < t.world.next
      → Step t (record t { world = unregister_entry p t.world; ending = store t.ending p true })
  disconnected :
      (server : String)
      → Step t (record t {
        world = forget server t.world;
        ending = mark t.ending (t.world.sessions server);
      })
  closed_one :
      (p : ℕ) → t.ending p ≡ true → Step t (with_world t (close p connection_closed t.world))
  touched : (p now : ℕ) → Step t (with_world t (touch p now t.world))
  -- the send of session.resolve, to a waiter that it has read from the table under the lock
  answered :
      (c : ℕ) (r : CommandResult)
      → Step t (with_world t (record t.world { waiters = offer c (result r) t.world.waiters }))
  routed :
      (server : String) (kind : Text) (p : ℕ)
      → route server kind t.world ≡ ok p
      → Step t (record t { found = store t.found p true })
  dispatched :
      (p : ℕ) (id : String) (c : ℕ)
      → t.found p ≡ true
      → Step t (with_world t (file_waiter p id c t.world))
  turned :
      {w : World} {a b : Phase} {p : ℕ} {id : String} {c : ℕ} {m : CoreMessage}
      → Turn p id c m a t.world b w
      → Step t (with_world t w)
  subscribed :
      {w : World} (p : ℕ) (id : String) (c : ℕ)
      → t.found p ≡ true
      → attach_stream p id c t.world ≡ ok w
      → Step t (with_world t w)
  subscription_sent :
      (p : ℕ) (id : String) (kind payload : Text)
      → t.found p ≡ true
      → ltb (length (t.world.heap p).send) send_capacity ≡ true
      → Step t (with_world t (enqueue p (subscribe id kind payload) t.world))
  stream_removed : (p : ℕ) (id : String) → Step t (with_world t (remove_stream p id t.world))
  -- the end of a Subscribe, after the removal of its stream
  cancel_sent :
      (p : ℕ) (id : String)
      → t.found p ≡ true
      → ltb (length (t.world.heap p).send) send_capacity ≡ true
      → Step t (with_world t (enqueue p (cancel id) t.world))

pub data Reach (s : Threads) : Threads → Type 0 where
  here : Reach s s
  next_step : {t u : Threads} → Reach s t → Step t u → Reach s u

-- a session that is about to be closed exists, and has left the table for good
pub record IsSafe (t : Threads) : Type 0 where
  pub valid : IsValid t.world
  pub old : (p : ℕ) → t.ending p ≡ true → p < t.world.next
  pub gone : (p : ℕ) → t.ending p ≡ true → (k : String) → t.world.sessions k ≢ some p

-- a step that leaves the table and the allocation as they are
same_table :
    (t : Threads) {w : World}
    → w.next ≡ t.world.next
    → ((k : String) → w.sessions k ≡ t.world.sessions k)
    → IsValid w
    → IsSafe t
    → IsSafe (with_world t w)
same_table t n e v s = record {
  valid = v;
  old = λ p h. rw n (s.old p h);
  gone = λ p h k. rw (e k) (s.gone p h k);
}

pub Turn-same :
    {p : ℕ} {id : String} {c : ℕ} {m : CoreMessage} {a b : Phase} {w v : World}
    → Turn p id c m a w b v
    → (v.next ≡ w.next) × ((k : String) → v.sessions k ≡ w.sessions k)
unfolding enqueue dispatch_end
Turn-same (send_command h) = (refl, λ k. refl)
Turn-same (send_closed h) = (refl, λ k. refl)
Turn-same send_canceled = (refl, λ k. refl)
Turn-same (receive h) = (refl, λ k. refl)
Turn-same (wait_closed h) = (refl, λ k. refl)
Turn-same wait_canceled = (refl, λ k. refl)
Turn-same return = (refl, λ k. refl)

waiters-IsValid :
    (w : World) (ws : ℕ → Option PendingResult) → IsValid w → IsValid (record w { waiters = ws })
waiters-IsValid w ws v = record {
  allocated = v.allocated;
  owned = v.owned;
  is_open = v.is_open;
  drained = v.drained;
}

Turn-IsValid :
    {p : ℕ} {id : String} {c : ℕ} {m : CoreMessage} {a b : Phase} {w v : World}
    → Turn p id c m a w b v
    → IsValid w
    → IsValid v
Turn-IsValid {p} {m = m} (send_command {w = w} h) v = enqueue-IsValid p m w v
Turn-IsValid (send_closed h) v = v
Turn-IsValid send_canceled v = v
Turn-IsValid {w = w} (receive h) v = waiters-IsValid w _ v
Turn-IsValid (wait_closed h) v = v
Turn-IsValid wait_canceled v = v
Turn-IsValid {p} {id} (return {w = w}) v = dispatch_end-IsValid p id w v

pub sessions-close :
    (p : ℕ) (e : Error) (w : World)
    → ((close p e w).next ≡ w.next) × ((k : String) → (close p e w).sessions k ≡ w.sessions k)
unfolding close
sessions-close p e w = (ground arith, λ k. ground arith)

pub attach_stream-same :
    (p : ℕ) (id : String) (c : ℕ) (w : World) {v : World}
    → attach_stream p id c w ≡ ok v
    → (v.next ≡ w.next) × ((k : String) → v.sessions k ≡ w.sessions k)
unfolding attach_stream
attach_stream-same p id c w h = (ground arith, λ k. ground arith)

next-unregister_entry : (p : ℕ) (w : World) → (unregister_entry p w).next ≡ w.next
unfolding unregister_entry
next-unregister_entry p w = ground arith

-- what is off the table stays off it
unregister_entry-gone :
    (p : ℕ) (w : World) (q : ℕ)
    → ((k : String) → w.sessions k ≢ some q)
    → (k : String) → (unregister_entry p w).sessions k ≢ some q
unfolding unregister_entry
unregister_entry-gone p w q g k h = ground (arith, g k)

-- the session that Disconnect is to close is the one that it found, if any
disconnected-IsSafe :
    (t : Threads) (server : String)
    → IsSafe t
    → IsSafe (record t {
      world = forget server t.world;
      ending = mark t.ending (t.world.sessions server);
    })
disconnected-IsSafe t server s = go (t.world.sessions server) refl
  where
    kept : IsValid (forget server t.world)
    kept = forget-IsValid server t.world s.valid

    go :
        (o : Option ℕ)
        → t.world.sessions server ≡ o
        → IsSafe (record t { world = forget server t.world; ending = mark t.ending o })
    go none e = record { valid = kept; old = s.old; gone = λ q h k. ground (arith, s.gone q h k) }
    go (some p) e = record {
      valid = kept;
      old = λ q h. ground (arith, s.old q, s.valid.allocated server p e);
      gone = λ q h k. ground (arith, s.gone q, s.gone q _ k, unlisted server p t.world s.valid e k);
    }

registered-IsSafe :
    (t : Threads) (hello : AgentHello) (id : String) (now : ℕ) {w : World} {p : ℕ}
    → register hello id now t.world ≡ ok (p, w)
    → IsSafe t
    → IsSafe (with_world t w)
registered-IsSafe t hello id now {w} h s = record {
  valid = register-IsValid hello id now t.world h s.valid;
  old = λ q e. rw (grown) (omega (arith, s.old q e));
  gone = λ q e k. ground (
    arith,
    register_current hello id now t.world k h,
    register_ok hello id now t.world h,
    s.old q e,
    s.gone q e k,
  );
}
  where
    grown : w.next ≡ suc t.world.next
    grown =
        ap (λ v. v.next) (register_ok hello id now t.world h).1
        ∙ next-install (open_session hello id now) t.world

pub Step-IsSafe : {t u : Threads} → Step t u → IsSafe t → IsSafe u
Step-IsSafe {t} (registered hello id now h) s = registered-IsSafe t hello id now h s
Step-IsSafe {t} (unregistered p l) s = record {
  valid = unregister_entry-IsValid p t.world s.valid;
  old = λ q h. rw (next-unregister_entry p t.world) (ground (arith, s.old q));
  gone = λ q h k. ground (
    arith,
    unregister_entry-absent p t.world s.valid k,
    unregister_entry-gone p t.world q (s.gone q _) k,
  );
}
Step-IsSafe {t} (disconnected server) s = disconnected-IsSafe t server s
Step-IsSafe {t} (closed_one p h) s =
    same_table t (sessions-close p connection_closed t.world).0
      (sessions-close p connection_closed t.world).1
      (close-IsValid p connection_closed t.world (s.gone p h) s.valid) s
Step-IsSafe {t} (touched p now) s =
    same_table t (unfold touch in refl) (λ k. unfold touch in refl)
      (touch-IsValid p now t.world s.valid) s
Step-IsSafe {t} (answered c r) s =
    same_table t refl (λ k. refl) (waiters-IsValid t.world _ s.valid) s
Step-IsSafe {t} (routed server kind p h) s = record { valid = s.valid; old = s.old; gone = s.gone }
Step-IsSafe {t} (dispatched p id c h) s =
    same_table t (unfold file_waiter in refl) (λ k. unfold file_waiter in refl)
      (file_waiter-IsValid p id c t.world s.valid) s
Step-IsSafe {t} (turned m) s =
    same_table t (Turn-same m).0 (Turn-same m).1 (Turn-IsValid m s.valid) s
Step-IsSafe {t} (subscribed p id c f h) s =
    same_table t (attach_stream-same p id c t.world h).0 (attach_stream-same p id c t.world h).1
      (attach_stream-IsValid p id c t.world h s.valid) s
Step-IsSafe {t} (subscription_sent p id kind payload f h) s =
    same_table t (unfold enqueue in refl) (λ k. unfold enqueue in refl)
      (enqueue-IsValid p (subscribe id kind payload) t.world s.valid) s
Step-IsSafe {t} (stream_removed p id) s =
    same_table t (unfold remove_stream in refl) (λ k. unfold remove_stream in refl)
      (remove_stream-IsValid p id t.world s.valid) s
Step-IsSafe {t} (cancel_sent p id f h) s =
    same_table t (unfold enqueue in refl) (λ k. unfold enqueue in refl)
      (enqueue-IsValid p (cancel id) t.world s.valid) s

-- From a new manager, or any other safe state, whatever Agents connect, reconnect and disconnect, and
-- whatever calls run meanwhile, with any other sections between the two of one Unregister, Disconnect,
-- Dispatch or Subscribe: every entry of the table points at an existing, open session of its own server,
-- and closed sessions keep no streams.
pub Reach-IsValid : {s t : Threads} → Reach s t → IsSafe s → IsValid t.world
Reach-IsValid r s = (Reach-IsSafe r s).valid
  where
    Reach-IsSafe : {s t : Threads} → Reach s t → IsSafe s → IsSafe t
    Reach-IsSafe here v = v
    Reach-IsSafe (next_step r st) v = Step-IsSafe st (Reach-IsSafe r v)
