-- ===== src/ControlPlane/Waiters.antt =====
-- What `close` and `resolve` do to the calls that wait for a result.
use mathlib.Core.Path.{fun_ext, subst}
use opendeploy.Common.{
  ℕ, ◌≡◌, sym, ap, ◌∙◌, inl, inr, Bool, true, false, Option, none, some, [], ◌∷◌, String, arith,
  Option-cases, All,
}
use opendeploy.Common.Keyed.{Keyed, lookup}
use opendeploy.ControlPlane.Model.{
  Error, CommandResult, PendingResult, result, failure, World, offer, fail_all, close, resolve,
}

abbrev pub is_filled : Option PendingResult → Bool
is_filled none = false
is_filled (some r) = true

offer-is_filled :
    (c : ℕ) (r : PendingResult) (ws : ℕ → Option PendingResult) (d : ℕ)
    → is_filled (ws d) ≡ true
    → is_filled (offer c r ws d) ≡ true
unfolding offer
offer-is_filled c r ws d h = ground arith

offer-is_filled_self :
    (c : ℕ) (r : PendingResult) (ws : ℕ → Option PendingResult) → is_filled (offer c r ws c) ≡ true
unfolding offer
offer-is_filled_self c r ws = ground arith

fail_all-is_filled :
    (e : Error) (ps : Keyed ℕ) (ws : ℕ → Option PendingResult) (d : ℕ)
    → is_filled (ws d) ≡ true
    → is_filled (fail_all e ps ws d) ≡ true
unfolding fail_all
fail_all-is_filled e [] ws d h = h
fail_all-is_filled e ((id, c) ∷ ps) ws d h =
    fail_all-is_filled e ps (offer c (failure e) ws) d (offer-is_filled c (failure e) ws d h)

fail_all-All :
    (e : Error) (ps : Keyed ℕ) (ws : ℕ → Option PendingResult)
    → All (λ (entry : String × ℕ). is_filled (fail_all e ps ws entry.1) ≡ true) ps
unfolding fail_all
fail_all-All e [] ws = tt
fail_all-All e ((id, c) ∷ ps) ws = (
  fail_all-is_filled e ps (offer c (failure e) ws) c (offer-is_filled_self c (failure e) ws),
  fail_all-All e ps (offer c (failure e) ws),
)

-- After a session that was open is closed, every waiter that was pending on it holds a result.
pub close_wakes :
    (p : ℕ) (e : Error) (w : World)
    → (w.heap p).done ≡ false
    → All
        (λ (entry : String × ℕ). is_filled ((close p e w).waiters entry.1) ≡ true)
        (w.heap p).pending
unfolding close
close_wakes p e w h = rw h (fail_all-All e (w.heap p).pending w.waiters)

fail_all_keeps :
    (e : Error) (ps : Keyed ℕ) (ws : ℕ → Option PendingResult) (d : ℕ) (r : PendingResult)
    → ws d ≡ some r
    → fail_all e ps ws d ≡ some r
unfolding fail_all offer
fail_all_keeps e [] ws d r h = h
fail_all_keeps e ((id, c) ∷ ps) ws d r h =
    fail_all_keeps e ps (offer c (failure e) ws) d r (ground arith)

-- A result that arrived before the session closed is still what the waiting call receives.
pub close_keeps :
    (p : ℕ) (e : Error) (w : World) (c : ℕ) (r : PendingResult)
    → w.waiters c ≡ some r
    → (close p e w).waiters c ≡ some r
unfolding close
close_keeps p e w c r h = ground (arith, fail_all_keeps e (w.heap p).pending w.waiters c r)

offer_twice :
    (c : ℕ) (r r' : PendingResult) (ws : ℕ → Option PendingResult)
    → offer c r' (offer c r ws) ≡ offer c r ws
offer_twice c r r' ws = fun_ext (λ d. offer_twice_at d)
  where
    offer_twice_at : (d : ℕ) → offer c r' (offer c r ws) d ≡ offer c r ws d
    offer_twice_at d = unfold offer in ground arith

resolve_known :
    (p : ℕ) (r : CommandResult) (w : World) {c : ℕ}
    → lookup r.command_id (w.heap p).pending ≡ some c
    → resolve p r w ≡ record w { waiters = offer c (result r) w.waiters }
unfolding resolve
resolve_known p r w h = rw (h, resolve)

-- A result of an unknown command, or one that came after its call had returned, changes nothing.
pub resolve_unknown :
    (p : ℕ) (r : CommandResult) (w : World)
    → lookup r.command_id (w.heap p).pending ≡ none
    → resolve p r w ≡ w
unfolding resolve
resolve_unknown p r w h = rw (h, resolve)

-- The first result of a command wins: while it is unread, a second result with the same id changes
-- nothing, whatever it holds.
pub resolve_once :
    (p : ℕ) (r r' : CommandResult) (w : World)
    → r'.command_id ≡ r.command_id
    → resolve p r' (resolve p r w) ≡ resolve p r w
resolve_once p r r' w h = elim (Option-cases (lookup r.command_id (w.heap p).pending)) [
  | inl missing ↦
      rw (resolve_unknown p r w missing)
        (resolve_unknown p r' w (subst (λ k. lookup k (w.heap p).pending ≡ none) (sym h) missing))
  | inr (c, found) ↦ rw (resolve_known p r w found) (
      resolve_known p r' (record w { waiters = offer c (result r) w.waiters })
        (subst (λ k. lookup k (w.heap p).pending ≡ some c) (sym h) found)
      ∙ ap (λ ws. record w { waiters = ws }) (offer_twice c (result r) (result r') w.waiters))
]
