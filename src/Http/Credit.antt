-- ===== src/Http/Credit.antt =====
-- What the limiter promises: in any run a client gets no more than a full bucket and its refills, and the
-- cleanup does not show.
use mathlib.Core.Path.{subst}
use opendeploy.Common.{
  ℕ, ◌+◌, ◌-◌, ◌*◌, ◌/◌, ◌≤◌, ◌≡◌, refl, ◌∙◌, sym, Bool, true, false, Option, none, some, List, [],
  ◌∷◌, String, str_eq, str_eq_iff, str_eq_refl, ◌&&◌, ltb, if◌then◌else◌, arith,
}
use native.Mathlib.Nat.{mul-le-mul_right, div-add-mod, mod-lt}
use opendeploy.Common.Keyed.{Keyed, lookup, remove, lookup-insert, lookup-remove}
use opendeploy.Http.Limiter.{
  Bucket, ClientLimiter, minute, capacity, refilled, delay, set_bucket, spend, allow_found, allow,
  drop_stale, cleanup, new_client_limiter,
}

pub data Event : Type 0 where
  wait : ℕ → Event
  request : String → Event
  tidy : Event

-- how many parts the client may spend at this time
abbrev pub credit : ℕ → ℕ → Option Bucket → ℕ
credit limit now none = capacity limit
credit limit now (some b) = refilled limit now b

stale_is_full :
    (limit now later : ℕ) (b : Bucket)
    → now ≤ later
    → ltb (2 * minute) (now - b.last_seen) ≡ true
    → refilled limit later b ≡ capacity limit
unfolding refilled
stale_is_full limit now later b h old =
    ground (arith, mul-le-mul_right {m = minute} {n = later - b.last_seen} limit)

credit_wait :
    (limit now d : ℕ) (o : Option Bucket)
    → credit limit (now + d) o ≤ credit limit now o + limit * d
unfolding refilled
credit_wait limit now d none = omega arith
credit_wait limit now d (some b) =
    ground
      (arith, mul-le-mul_right {m = (now + d) - b.last_seen} {n = (now - b.last_seen) + d} limit)

credit_stale :
    (limit now later : ℕ) (key : String) (m : Keyed Bucket)
    → now ≤ later
    → credit limit later (lookup key (drop_stale now m)) ≡ credit limit later (lookup key m)
unfolding drop_stale lookup
credit_stale limit now later key [] h = refl
credit_stale limit now later key ((k, b) ∷ m) h =
    go (ltb (2 * minute) (now - b.last_seen)) refl (str_eq k key) refl
      (credit_stale limit now later key m h)
  where
    go :
        (stale : Bool)
        → ltb (2 * minute) (now - b.last_seen) ≡ stale
        → (here : Bool) → str_eq k key ≡ here
        → credit limit later (lookup key (drop_stale now m)) ≡ credit limit later (lookup key m)
        → credit limit later
            (lookup key (if stale then remove k (drop_stale now m) else (k, b) ∷ drop_stale now m))
          ≡ credit limit later (if str_eq k key then some b else lookup key m)
    go true old true e ih =
        rw (lookup-remove k key (drop_stale now m), e, stale_is_full limit now later b h old)
    go true old false e ih = rw (lookup-remove k key (drop_stale now m), e, ih)
    go false old true e ih = rw (e)
    go false old false e ih = rw (e, ih)

allow_limit : (key : String) (now : ℕ) (l : ClientLimiter) → (allow key now l).1.limit ≡ l.limit
unfolding allow allow_found spend
allow_limit key now l = go (lookup key l.buckets)
  where
    go : (o : Option Bucket) → (allow_found key now l o).1.limit ≡ l.limit
    go none = refl
    go (some b) = ground arith

allow_other :
    (key j : String) (now : ℕ) (l : ClientLimiter)
    → str_eq j key ≡ false
    → lookup key (allow j now l).1.buckets ≡ lookup key l.buckets
unfolding allow allow_found spend
allow_other key j now l e = go (lookup j l.buckets)
  where
    set : (t : ℕ) → lookup key (set_bucket j t now l).buckets ≡ lookup key l.buckets
    set t = lookup-insert j key _ l.buckets ∙ rw (e)

    go : (o : Option Bucket) → lookup key (allow_found j now l o).1.buckets ≡ lookup key l.buckets
    go none = set (capacity l.limit - minute)
    go (some b) =
        ground (arith, set (refilled l.limit now b), set (refilled l.limit now b - minute))

abbrev price : Bool → ℕ
price true = minute
price false = 0

-- a request is paid for
allow_paid :
    (key : String) (now : ℕ) (l : ClientLimiter)
    → 1 ≤ l.limit
    → credit l.limit now (lookup key (allow key now l).1.buckets) + price (allow key now l).0.0
      ≤ credit l.limit now (lookup key l.buckets)
unfolding allow allow_found spend refilled
allow_paid key now l positive = go (lookup key l.buckets)
  where
    set : (t : ℕ) → credit l.limit now (lookup key (set_bucket key t now l).buckets) ≤ t
    set t =
        rw
          (
            lookup-insert key key (record { tokens = t; last_seen = now }) l.buckets,
            str_eq_refl key,
          )
          (omega (arith, mul-le-mul_right {m = now - now} {n = 0} l.limit (omega arith)))

    go :
        (o : Option Bucket)
        → credit l.limit now (lookup key (allow_found key now l o).1.buckets)
            + price (allow_found key now l o).0.0
          ≤ credit l.limit now o
    go none =
        ground
          (arith, set (capacity l.limit - minute), mul-le-mul_right {m = 1} {n = l.limit} minute)
    go (some b) =
        ground (arith, set (refilled l.limit now b), set (refilled l.limit now b - minute))

-- how many requests of the client are allowed in the run
abbrev pub granted : String → List Event → ℕ → ClientLimiter → ℕ
granted key [] now l = 0
granted key (wait d ∷ es) now l = granted key es (now + d) l
granted key (request j ∷ es) now l =
    let rest = granted key es now (allow j now l).1 in
    if str_eq j key && (allow j now l).0.0 then 1 + rest else rest
granted key (tidy ∷ es) now l = granted key es now (cleanup now l)

abbrev pub waited : List Event → ℕ
waited [] = 0
waited (wait d ∷ es) = d + waited es
waited (request j ∷ es) = waited es
waited (tidy ∷ es) = waited es

paid_by :
    (b : Bool) (n x c c' : ℕ)
    → n * minute ≤ c' + x
    → c' + price b ≤ c
    → (if b then 1 + n else n) * minute ≤ c + x
paid_by true n x c c' h k = omega arith
paid_by false n x c c' h k = omega arith

granted_request :
    (key j : String) (now : ℕ) (l : ClientLimiter) (n w : ℕ)
    → 1 ≤ l.limit
    → n * minute ≤ credit l.limit now (lookup key (allow j now l).1.buckets) + l.limit * w
    → (if str_eq j key && (allow j now l).0.0 then 1 + n else n) * minute
      ≤ credit l.limit now (lookup key l.buckets) + l.limit * w
granted_request key j now l n w positive rest = go (str_eq j key) refl
  where
    go :
        (own : Bool)
        → str_eq j key ≡ own
        → (if own && (allow j now l).0.0 then 1 + n else n) * minute
          ≤ credit l.limit now (lookup key l.buckets) + l.limit * w
    go true e = paid_by (allow j now l).0.0 n (l.limit * w) _ _ rest (
        subst
          (λ i.
            credit l.limit now (lookup i (allow j now l).1.buckets) + price (allow j now l).0.0
            ≤ credit l.limit now (lookup i l.buckets))
          ((str_eq_iff j key).0 e) (allow_paid j now l positive))
    go false e =
        subst (λ o. n * minute ≤ credit l.limit now o + l.limit * w) (allow_other key j now l e)
          rest

granted_paid :
    (key : String) (es : List Event) (now : ℕ) (l : ClientLimiter)
    → 1 ≤ l.limit
    → granted key es now l * minute
      ≤ credit l.limit now (lookup key l.buckets) + l.limit * waited es
unfolding cleanup
granted_paid key [] now l positive = omega arith
granted_paid key (wait d ∷ es) now l positive = omega (
  arith,
  granted_paid key es (now + d) l positive,
  credit_wait l.limit now d (lookup key l.buckets),
)
granted_paid key (request j ∷ es) now l positive =
    granted_request key j now l (granted key es now (allow j now l).1) (waited es) positive (
      subst
        (λ n.
          granted key es now (allow j now l).1 * minute
          ≤ credit n now (lookup key (allow j now l).1.buckets) + n * waited es)
        (allow_limit j now l)
        (granted_paid key es now (allow j now l).1
          (subst (λ n. 1 ≤ n) (sym (allow_limit j now l)) positive)))
granted_paid key (tidy ∷ es) now l positive =
    subst (λ c. granted key es now (cleanup now l) * minute ≤ c + l.limit * waited es)
      (credit_stale l.limit now now key l.buckets (omega arith))
      (granted_paid key es now (cleanup now l) positive)

-- In every run of requests, waits and cleanups that starts with no buckets, a client is allowed no more
-- requests than the limit, and the limit again for each minute that passes.
pub granted_bounded :
    (limit : ℕ) (key : String) (es : List Event) (start : ℕ)
    → 1 ≤ limit
    → granted key es start (new_client_limiter limit) * minute ≤ limit * (minute + waited es)
unfolding new_client_limiter lookup
granted_bounded limit key es start positive =
    omega (arith, granted_paid key es start (new_client_limiter limit) positive)

abbrev answer : ℕ → ℕ → Bool × ℕ
answer limit c = if ltb c minute then (false, delay limit c) else (true, 0)

allow-answer :
    (key : String) (now : ℕ) (l : ClientLimiter)
    → 1 ≤ l.limit
    → (allow key now l).0 ≡ answer l.limit (credit l.limit now (lookup key l.buckets))
unfolding allow allow_found spend
allow-answer key now l positive = go (lookup key l.buckets)
  where
    go : (o : Option Bucket) → (allow_found key now l o).0 ≡ answer l.limit (credit l.limit now o)
    go none = ground (arith, mul-le-mul_right {m = 1} {n = l.limit} minute)
    go (some b) = ground arith

rounded_up : (a c : ℕ) → 1 ≤ c → a ≤ (a + (c - 1)) / c * c
rounded_up a c h =
    omega (arith, div-add-mod (a + (c - 1)) c, mod-lt (a + (c - 1)) {m = c} (omega arith))

-- after the delay there is a token again
refilled_enough :
    (limit now t : ℕ)
    → 1 ≤ limit
    → minute ≤ refilled limit (now + delay limit t) (record { tokens = t; last_seen = now })
unfolding refilled
refilled_enough limit now t positive = ground (
  arith,
  rounded_up (minute - t) limit positive,
  mul-le-mul_right {m = delay limit t} {n = (now + delay limit t) - now} limit,
  mul-le-mul_right {m = 1} {n = limit} minute,
)

delayed :
    (key : String) (now t : ℕ) (l : ClientLimiter)
    → 1 ≤ l.limit
    → (allow key (now + delay l.limit t) (set_bucket key t now l)).0.0 ≡ true
delayed key now t l positive =
    rw
      (
        allow-answer key (now + delay l.limit t) (set_bucket key t now l) positive,
        lookup-insert key key (record { tokens = t; last_seen = now }) l.buckets,
        str_eq_refl key,
      )
      (ground (arith, refilled_enough l.limit now t positive))

-- The delay of a refusal is enough: a request that waits for it is allowed, if the client sends none in
-- between.
pub allow-delay :
    (key : String) (now : ℕ) (l : ClientLimiter)
    → 1 ≤ l.limit
    → (allow key now l).0.0 ≡ false
    → (allow key (now + (allow key now l).0.1) (allow key now l).1).0.0 ≡ true
unfolding allow allow_found spend
allow-delay key now l positive refused = go (lookup key l.buckets) refused
  where
    after :
        (t : ℕ) (low : Bool)
        → ltb t minute ≡ low
        → (spend key t now l).0.0 ≡ false
        → (allow key (now + (spend key t now l).0.1) (spend key t now l).1).0.0 ≡ true
    after t true e h = rw (e) (delayed key now t l positive)
    after t false e h = ground arith

    go :
        (o : Option Bucket)
        → (allow_found key now l o).0.0 ≡ false
        → (allow key (now + (allow_found key now l o).0.1) (allow_found key now l o).1).0.0 ≡ true
    go none h = cc
    go (some b) h = after (refilled l.limit now b) _ refl h
