-- ===== src/ControlPlane/Registry.antt =====
-- What holds of the table of live sessions, whatever Agents connect, reconnect and disconnect.
use mathlib.Core.Path.{subst}
use opendeploy.Common.{
  inl, inr, sym, ◌⊎◌, Bool-cases, ℕ, ◌<◌, ◌≡◌, refl, ◌≢◌, true, false, Option, none, some, [],
  String, str_eq_iff, arith, ok,
}
use opendeploy.ControlPlane.Model.{
  Error, AgentHello, Session, World, assign, close, protocol_version, forget, is_pointer,
  file_session, close_previous, open_session, install, register, unregister_entry, disconnect,
  touch,
}
use opendeploy.ControlPlane.Capabilities.{api_version}

pub record IsValid (w : World) : Type 0 where
  -- the map points at sessions that exist, are filed under their server, and are open
  pub allocated : (k : String) (p : ℕ) → w.sessions k ≡ some p → p < w.next
  pub owned : (k : String) (p : ℕ) → w.sessions k ≡ some p → (w.heap p).owner ≡ k
  pub is_open : (k : String) (p : ℕ) → w.sessions k ≡ some p → (w.heap p).done ≡ false
  -- a closed session has no streams left
  pub drained : (p : ℕ) → (w.heap p).done ≡ true → (w.heap p).streams ≡ []

current_pointer : (o : Option ℕ) (p : ℕ) → is_pointer o p ≡ true → o ≡ some p
current_pointer none p h = cc
current_pointer (some q) p h = ground arith

stale_pointer : (o : Option ℕ) (p : ℕ) → is_pointer o p ≡ false → o ≢ some p
stale_pointer none p h e = cc
stale_pointer (some q) p h e = ground arith

-- closing a session that the map does not hold
pub close-IsValid :
    (p : ℕ) (e : Error) (w : World)
    → ((k : String) → w.sessions k ≢ some p)
    → IsValid w
    → IsValid (close p e w)
unfolding close
close-IsValid p e w absent v = record {
  allocated = λ k q h. ground (arith, v.allocated k q);
  owned = λ k q h. ground (arith, v.owned k q, absent k);
  is_open = λ k q h. ground (arith, v.is_open k q, absent k);
  drained = λ q h. ground (arith, v.drained q);
}

pub unlisted :
    (k : String) (p : ℕ) (w : World)
    → IsValid w
    → w.sessions k ≡ some p
    → (j : String) → assign w.sessions k none j ≢ some p
unlisted k p w v h j e = ground (arith, v.owned k p, v.owned j p, str_eq_iff k j)

pub forget-IsValid : (k : String) (w : World) → IsValid w → IsValid (forget k w)
forget-IsValid k w v = record {
  allocated = λ j q h. ground (arith, v.allocated j q);
  owned = λ j q h. ground (arith, v.owned j q);
  is_open = λ j q h. ground (arith, v.is_open j q);
  drained = v.drained;
}

pub disconnect-IsValid : (k : String) (w : World) → IsValid w → IsValid (disconnect k w)
unfolding disconnect
disconnect-IsValid k w v = go (w.sessions k) refl
  where
    go : (o : Option ℕ) → w.sessions k ≡ o → IsValid (close_previous o (forget k w))
    go none h = unfold close_previous in forget-IsValid k w v
    go (some p) h =
        unfold close_previous in
        close-IsValid p _ (forget k w) (unlisted k p w v h) (forget-IsValid k w v)

pub unregister_entry-IsValid : (p : ℕ) (w : World) → IsValid w → IsValid (unregister_entry p w)
unfolding unregister_entry
unregister_entry-IsValid p w v = elim (Bool-cases (is_pointer (w.sessions (w.heap p).owner) p)) [
  | inl current ↦ rw current (forget-IsValid (w.heap p).owner w v)
  | inr stale ↦ rw stale v
]

-- after the section of unregister under m.mu, no entry points at the session
pub unregister_entry-absent :
    (p : ℕ) (w : World) → IsValid w → (k : String) → (unregister_entry p w).sessions k ≢ some p
unfolding unregister_entry
unregister_entry-absent p w v k = elim (Bool-cases (is_pointer (w.sessions (w.heap p).owner) p)) [
  | inl current ↦
      rw current (
        unlisted (w.heap p).owner p w v (current_pointer (w.sessions (w.heap p).owner) p current) k)
  | inr stale ↦
      rw stale
        (λ e. ground (arith, v.owned k p e, stale_pointer (w.sessions (w.heap p).owner) p stale))
]

close-forget :
    (k : String) (o : Option ℕ) (w : World)
    → close_previous o (forget k w) ≡ forget k (close_previous o w)
unfolding close_previous close
close-forget k none w = refl
close-forget k (some p) w = ground arith

file_session-IsValid :
    (s : Session) (w : World)
    → s.done ≡ false
    → IsValid (forget s.owner w)
    → IsValid (file_session s w)
unfolding file_session
file_session-IsValid s w fresh v = record {
  allocated = λ j q h. ground (arith, v.allocated j q);
  owned = λ j q h. ground (arith, v.owned j q, v.allocated j q, str_eq_iff s.owner j);
  is_open = λ j q h. ground (arith, v.is_open j q, v.allocated j q);
  drained = λ q h. ground (arith, v.drained q);
}

-- filing a new session after the previous one of its server was closed
install-IsValid : (s : Session) (w : World) → s.done ≡ false → IsValid w → IsValid (install s w)
unfolding install
install-IsValid s w fresh v = file_session-IsValid s (close_previous (w.sessions s.owner) w) fresh (
    subst IsValid (close-forget s.owner (w.sessions s.owner) w)
      (unfold disconnect in disconnect-IsValid s.owner w v))

-- Agents of another protocol or another API version are refused; all others get the next pointer.
pub register_ok :
    (hello : AgentHello) (id : String) (now : ℕ) (w : World) {p : ℕ} {v : World}
    → register hello id now w ≡ ok (p, v)
    → (p ≡ w.next)
      × (v ≡ install (open_session hello id now) w)
      × (hello.hello_protocol ≡ protocol_version)
      × ((hello.hello_api ≡ "") ⊎ (hello.hello_api ≡ api_version))
unfolding register
register_ok hello id now w h =
    ground (arith, str_eq_iff hello.hello_api "", str_eq_iff hello.hello_api api_version)

pub register-IsValid :
    (hello : AgentHello) (id : String) (now : ℕ) (w : World) {p : ℕ} {v : World}
    → register hello id now w ≡ ok (p, v)
    → IsValid w
    → IsValid v
unfolding open_session
register-IsValid hello id now w h v =
    subst IsValid (sym (register_ok hello id now w h).1)
      (install-IsValid (open_session hello id now) w refl v)

pub touch-IsValid : (p now : ℕ) (w : World) → IsValid w → IsValid (touch p now w)
unfolding touch
touch-IsValid p now w v = record {
  allocated = v.allocated;
  owned = λ k q h. ground (arith, v.owned k q);
  is_open = λ k q h. ground (arith, v.is_open k q);
  drained = λ q h. ground (arith, v.drained q, v.drained p);
}
