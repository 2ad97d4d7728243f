-- ===== src/ControlPlane/Dispatch.antt =====
-- The sections of Dispatch and Subscribe under a session's lock keep the table of sessions valid.
use opendeploy.Common.{ℕ, ◌≡◌, [], String, arith, ok}
use opendeploy.Common.Keyed.{Keyed, remove}
use opendeploy.ControlPlane.Model.{CoreMessage, World}
use opendeploy.ControlPlane.Commands.{
  file_waiter, attach_stream, enqueue, dispatch_end, remove_stream,
}
use opendeploy.ControlPlane.Registry.{IsValid}

pub enqueue-IsValid : (p : ℕ) (m : CoreMessage) (w : World) → IsValid w → IsValid (enqueue p m w)
unfolding enqueue
enqueue-IsValid p m w v = record {
  allocated = v.allocated;
  owned = λ k q h. ground (arith, v.owned k q);
  is_open = λ k q h. ground (arith, v.is_open k q);
  drained = λ q h. ground (arith, v.drained q, v.drained p);
}

pub dispatch_end-IsValid :
    (p : ℕ) (id : String) (w : World) → IsValid w → IsValid (dispatch_end p id w)
unfolding dispatch_end
dispatch_end-IsValid p id w v = record {
  allocated = v.allocated;
  owned = λ k q h. ground (arith, v.owned k q);
  is_open = λ k q h. ground (arith, v.is_open k q);
  drained = λ q h. ground (arith, v.drained q, v.drained p);
}

remove-nil : (id : String) (m : Keyed ℕ) → m ≡ [] → remove id m ≡ []
unfolding remove
remove-nil id m h = rw h

pub remove_stream-IsValid :
    (p : ℕ) (id : String) (w : World) → IsValid w → IsValid (remove_stream p id w)
unfolding remove_stream
remove_stream-IsValid p id w v = record {
  allocated = v.allocated;
  owned = λ k q h. ground (arith, v.owned k q);
  is_open = λ k q h. ground (arith, v.is_open k q);
  drained = λ q h. ground (arith, v.drained q, v.drained p, remove-nil id (w.heap p).streams);
}

pub file_waiter-IsValid :
    (p : ℕ) (id : String) (c : ℕ) (w : World) → IsValid w → IsValid (file_waiter p id c w)
unfolding file_waiter
file_waiter-IsValid p id c w v = record {
  allocated = v.allocated;
  owned = λ k q h. ground (arith, v.owned k q);
  is_open = λ k q h. ground (arith, v.is_open k q);
  drained = λ q h. ground (arith, v.drained q, v.drained p);
}

pub attach_stream-IsValid :
    (p : ℕ) (id : String) (c : ℕ) (w : World) {v : World}
    → attach_stream p id c w ≡ ok v
    → IsValid w
    → IsValid v
unfolding attach_stream
attach_stream-IsValid p id c w h v = record {
  allocated = λ k q e. ground (arith, v.allocated k q);
  owned = λ k q e. ground (arith, v.owned k q);
  is_open = λ k q e. ground (arith, v.is_open k q);
  drained = λ q e. ground (arith, v.drained q, v.drained p);
}
