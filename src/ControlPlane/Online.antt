-- ===== src/ControlPlane/Online.antt =====
-- How long a server stays online, whatever the other threads do.
use opendeploy.Common.{
  ℕ, ◌≡◌, ◌≢◌, ◌∙◌, refl, false, Option, none, some, String, str_eq, str_eq_iff, arith,
  if◌then◌else◌,
}
use opendeploy.ControlPlane.Model.{
  World, connection_closed, forget, is_pointer, unregister_entry, touch,
}
use opendeploy.ControlPlane.Commands.{file_waiter, enqueue, remove_stream}
use opendeploy.ControlPlane.Reconnect.{register_current}
use opendeploy.ControlPlane.Steps.{
  Threads, Step, registered, unregistered, disconnected, closed_one, touched, answered, routed,
  dispatched, turned, subscribed, subscription_sent, stream_removed, cancel_sent, IsSafe,
  Step-IsSafe, Turn-same, sessions-close, attach_stream-same,
}

module _ (k : String) (p : ℕ) where
  -- the step is no new registration of the server `k`, no Disconnect of it, and not the end of the
  -- handler of the session `p`
  unfoldable pub Spares : {t u : Threads} → Step t u → Type 0
  Spares (registered hello id now h) = str_eq hello.server_id k ≡ false
  Spares (unregistered q l) = q ≢ p
  Spares (disconnected server) = str_eq server k ≡ false
  Spares (closed_one q h) = Unit {0}
  Spares (touched q now) = Unit {0}
  Spares (answered c r) = Unit {0}
  Spares (routed server kind q h) = Unit {0}
  Spares (dispatched q id c h) = Unit {0}
  Spares (turned m) = Unit {0}
  Spares (subscribed q id c f h) = Unit {0}
  Spares (subscription_sent q id kind payload f h) = Unit {0}
  Spares (stream_removed q id) = Unit {0}
  Spares (cancel_sent q id f h) = Unit {0}

  -- a run of such steps
  pub data Spared (s : Threads) : Threads → Type 0 where
    here : Spared s s
    next_step : {t u : Threads} → Spared s t → (st : Step t u) → Spares st → Spared s u

  other_entry :
      (q : ℕ) (w : World)
      → q ≢ p
      → w.sessions k ≡ some p
      → (unregister_entry q w).sessions k ≡ some p
  unfolding unregister_entry
  other_entry q w n e = go (w.sessions (w.heap q).owner) refl
    where
      go :
          (o : Option ℕ)
          → w.sessions (w.heap q).owner ≡ o
          → (if is_pointer o q then forget (w.heap q).owner w else w).sessions k ≡ some p
      go none h = e
      go (some r) h = ground (arith, str_eq_iff (w.heap q).owner k)

  kept_entry :
      {t u : Threads} (st : Step t u)
      → Spares st
      → t.world.sessions k ≡ some p
      → u.world.sessions k ≡ some p
  unfolding Spares touch file_waiter enqueue remove_stream
  kept_entry {t} (registered hello id now h) s e =
      register_current hello id now t.world k h ∙ (rw s e)
  kept_entry {t} (unregistered q l) s e = other_entry q t.world s e
  kept_entry {t} (disconnected server) s e = rw s e
  kept_entry {t} (closed_one q h) s e = (sessions-close q connection_closed t.world).1 k ∙ e
  kept_entry (touched q now) s e = e
  kept_entry (answered c r) s e = e
  kept_entry (routed server kind q h) s e = e
  kept_entry (dispatched q id c h) s e = e
  kept_entry (turned m) s e = (Turn-same m).1 k ∙ e
  kept_entry {t} (subscribed q id c f h) s e = (attach_stream-same q id c t.world h).1 k ∙ e
  kept_entry (subscription_sent q id kind payload f h) s e = e
  kept_entry (stream_removed q id) s e = e
  kept_entry (cancel_sent q id f h) s e = e

  kept_run :
      {s t : Threads}
      → Spared s t
      → IsSafe s
      → s.world.sessions k ≡ some p
      → IsSafe t × (t.world.sessions k ≡ some p)
  kept_run here v e = (v, e)
  kept_run (next_step r st q) v e =
      let c = kept_run r v e in (Step-IsSafe st c.0, kept_entry st q c.1)

  -- A server that is online in a safe state stays online, with the same session, still open,
  -- whatever sections the other threads run, the ends of its older sessions among them, up to the end of
  -- the handler of that session, a new registration of the server or a Disconnect of it.
  pub stays_online :
      {s t : Threads}
      → Spared s t
      → IsSafe s
      → s.world.sessions k ≡ some p
      → (t.world.sessions k ≡ some p) × ((t.world.heap p).done ≡ false)
  stays_online r v e = let c = kept_run r v e in (c.1, c.0.valid.is_open k p c.1)
