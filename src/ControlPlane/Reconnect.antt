-- ===== src/ControlPlane/Reconnect.antt =====
-- Reconnection: a new session of a server replaces the old one, and the end of the old one, whenever
-- it comes, does not take the new one offline.
use opendeploy.Common.{
  ℕ, suc, ap, ◌<◌, ◌≡◌, refl, Option, none, some, String, str_eq, str_eq_iff, str_eq_refl, arith,
  ok, if◌then◌else◌,
}
use opendeploy.ControlPlane.Model.{
  Error, AgentHello, Session, World, close, close_previous, forget, is_pointer, file_session,
  open_session, install, register, unregister, unregister_entry,
}
use opendeploy.ControlPlane.Registry.{IsValid, register_ok, register-IsValid}

sessions-close_previous :
    (o : Option ℕ) (w : World) (k : String) → (close_previous o w).sessions k ≡ w.sessions k
unfolding close_previous close
sessions-close_previous none w k = refl
sessions-close_previous (some p) w k = ground arith

next-close_previous : (o : Option ℕ) (w : World) → (close_previous o w).next ≡ w.next
unfolding close_previous close
next-close_previous none w = refl
next-close_previous (some p) w = ground arith

pub next-install : (s : Session) (w : World) → (install s w).next ≡ suc w.next
unfolding install file_session
next-install s w = ap suc (next-close_previous (w.sessions s.owner) w)

pub sessions-install :
    (s : Session) (w : World) (k : String)
    → (install s w).sessions k ≡ (if str_eq s.owner k then some w.next else w.sessions k)
unfolding install file_session
sessions-install s w k = simp (next-close_previous, sessions-close_previous)

owner-close_previous :
    (o : Option ℕ) (w : World) (q : ℕ) → ((close_previous o w).heap q).owner ≡ (w.heap q).owner
unfolding close_previous close
owner-close_previous none w q = refl
owner-close_previous (some p) w q = ground arith

owner-install :
    (s : Session) (w : World) (q : ℕ) → q < w.next → ((install s w).heap q).owner ≡ (w.heap q).owner
unfolding install file_session
owner-install s w q h = ground (
  arith,
  next-close_previous (w.sessions s.owner) w,
  owner-close_previous (w.sessions s.owner) w q,
)

-- The session that `register` returns is the one on file for its server, and the entries of all
-- other servers are as they were.
pub register_current :
    (hello : AgentHello) (id : String) (now : ℕ) (w : World) {p : ℕ} {v : World} (k : String)
    → register hello id now w ≡ ok (p, v)
    → v.sessions k ≡ (if str_eq hello.server_id k then some p else w.sessions k)
unfolding open_session
register_current hello id now w k h =
    let r = register_ok hello id now w h in
    rw (r.1, r.0) (sessions-install (open_session hello id now) w k)

sessions-close :
    (p : ℕ) (e : Error) (w : World) (k : String) → (close p e w).sessions k ≡ w.sessions k
unfolding close
sessions-close p e w k = ground arith

-- The end of a session removes the entry of its server exactly if it is that entry.
pub sessions-unregister :
    (p : ℕ) (w : World) (k : String)
    → IsValid w
    → (unregister p w).sessions k ≡ (if is_pointer (w.sessions k) p then none else w.sessions k)
unfolding unregister unregister_entry
sessions-unregister p w k v = rw sessions-close (go (w.sessions k) refl)
  where
    owner : String
    owner = (w.heap p).owner

    go :
        (o : Option ℕ)
        → w.sessions k ≡ o
        → (if is_pointer (w.sessions owner) p then forget owner w else w).sessions k
          ≡ (if is_pointer (w.sessions k) p then none else w.sessions k)
    go none e = ground (arith, str_eq_iff owner k)
    go (some q) e = ground (arith, str_eq_iff owner k, v.owned k q e)

-- A server that reconnects stays online when the handler of its old session ends later.
pub reconnect_survives :
    (hello : AgentHello) (id : String) (now : ℕ) (w : World) {p : ℕ} {v : World} (q : ℕ)
    → IsValid w
    → q < w.next
    → register hello id now w ≡ ok (p, v)
    → (unregister q v).sessions hello.server_id ≡ some p
reconnect_survives hello id now w {p} {v} q valid old h =
    let current = register_current hello id now w hello.server_id h in
    rw (sessions-unregister q v hello.server_id (register-IsValid hello id now w h valid), current)
      (ground (arith, str_eq_refl hello.server_id, register_ok hello id now w h))
