-- ===== src/Events/Delivery.antt =====
-- The subscriptions of a bus stay in their order and apart; and a publication calls each of them once.
use opendeploy.Common.{
  ℕ, ◌+◌, ◌==◌, ◌≤◌, ◌<◌, ◌≡◌, refl, ◌∙◌, ap, Bool, true, false, not, Option, none, some, List, [],
  ◌∷◌, ◌++◌, map, append_assoc, append-nil, keep, String, str_eq, str_eq_iff, if◌then◌else◌, arith,
  All, sym,
}
use mathlib.Core.Path.{subst}
use opendeploy.Common.Keyed.{lookup, insert, lookup-insert}
use opendeploy.Events.Bus.{
  Event, Handler, Subscription, MemoryBus, new_memory_bus, listed, subs_of, subscribe, cut,
  unsubscribe, call_all, publish,
}

pub data Change (P S : Type 0) : Type 0 where
  add : String → Handler P S → Change P S
  cancel : String → ℕ → Change P S

module _ {P S : Type 0} where
  -- the ids rise from above `lo` to at most `hi`
  abbrev pub Rising : ℕ → ℕ → List (Subscription P S) → Type 0
  Rising lo hi [] = lo ≤ hi
  Rising lo hi (s ∷ l) = (lo < s.id) × Rising s.id hi l

  -- for each type the ids rise, and none is above the sequence number
  pub record IsValid (b : MemoryBus P S) : Type 0 where
    pub rising : (t : String) → Rising 0 b.seq (subs_of t b)

  lower :
      (lo lo' hi : ℕ) (l : List (Subscription P S)) → lo ≤ lo' → Rising lo' hi l → Rising lo hi l
  lower lo lo' hi [] h r = omega arith
  lower lo lo' hi (s ∷ l) h r = (omega (arith, r.0), r.1)

  raise_to : (lo hi : ℕ) (l : List (Subscription P S)) → Rising lo hi l → Rising lo (hi + 1) l
  raise_to lo hi [] r = omega arith
  raise_to lo hi (s ∷ l) r = (r.0, raise_to s.id hi l r.1)

  appended :
      (lo hi : ℕ) (l : List (Subscription P S)) (h : Handler P S)
      → Rising lo hi l
      → Rising lo (hi + 1) (l ++ (record { id = hi + 1; handler = h } ∷ []))
  appended lo hi [] h r = (omega arith, omega arith)
  appended lo hi (s ∷ l) h r = (r.0, appended s.id hi l h r.1)

  abbrev others : ℕ → List (Subscription P S) → List (Subscription P S)
  others id l = keep (λ s. not (s.id == id)) l

  above_others :
      (id lo hi : ℕ) (l : List (Subscription P S)) → id ≤ lo → Rising lo hi l → others id l ≡ l
  above_others id lo hi [] h r = refl
  above_others id lo hi (s ∷ l) h r =
      ground (arith, r.0, above_others id s.id hi l (omega (arith, r.0)) r.1)

  -- with the empty list of the removed key
  abbrev kept : List (Subscription P S) → Option (List (Subscription P S)) → List (Subscription P S)
  kept l none = l
  kept l (some l') = l'

  cut-others :
      (id lo hi : ℕ) (l : List (Subscription P S))
      → Rising lo hi l
      → kept l (cut id l) ≡ others id l
  unfolding cut
  cut-others id lo hi [] r = refl
  cut-others id lo hi (s ∷ l) r = go (s.id == id) refl (cut id l) (cut-others id s.id hi l r.1)
    where
      go :
          (same : Bool)
          → (s.id == id) ≡ same
          → (o : Option (List (Subscription P S))) → kept l o ≡ others id l
          → kept (s ∷ l) (if same then some l else elim o [ none ↦ none | some l' ↦ some (s ∷ l') ])
            ≡ (if not same then s ∷ others id l else others id l)
      go true e o h = sym (above_others id s.id hi l (ground arith) r.1)
      go false e none h = ap (λ k. s ∷ k) h
      go false e (some l') h = ap (λ k. s ∷ k) h

  subs_of-insert :
      (t t' : String) (l : List (Subscription P S)) (b : MemoryBus P S)
      → listed (lookup t' (insert t l b.subs)) ≡ (if str_eq t t' then l else subs_of t' b)
  subs_of-insert t t' l b = rw (lookup-insert t t' l b.subs) (go (str_eq t t'))
    where
      go :
          (same : Bool)
          → listed (if same then some l else lookup t' b.subs) ≡ (if same then l else subs_of t' b)
      go true = refl
      go false = refl

  -- The returned function of a subscription removes the subscription with its id, and no other one, of
  -- its own type or of another.
  pub unsubscribe-others :
      (b : MemoryBus P S) (t t' : String) (id : ℕ)
      → IsValid b
      → subs_of t' (unsubscribe t id b)
        ≡ (if str_eq t t' then others id (subs_of t b) else subs_of t' b)
  unfolding unsubscribe
  unsubscribe-others b t t' id v =
      go (cut id (subs_of t b)) (cut-others id 0 b.seq (subs_of t b) (v.rising t)) (str_eq t t')
        refl
    where
      go :
          (o : Option (List (Subscription P S)))
          → kept (subs_of t b) o ≡ others id (subs_of t b)
          → (same : Bool) → str_eq t t' ≡ same
          → subs_of t' (elim o [ none ↦ b | some l ↦ record b { subs = insert t l b.subs } ])
            ≡ (if same then others id (subs_of t b) else subs_of t' b)
      go none h true e =
          subst (λ i. subs_of i b ≡ others id (subs_of t b)) ((str_eq_iff t t').0 e) h
      go none h false e = refl
      go (some l) h true e = subs_of-insert t t' l b ∙ rw (e, h)
      go (some l) h false e = subs_of-insert t t' l b ∙ rw (e)

  rising-others :
      (id lo hi : ℕ) (l : List (Subscription P S)) → Rising lo hi l → Rising lo hi (others id l)
  rising-others id lo hi [] r = r
  rising-others id lo hi (s ∷ l) r = go (not (s.id == id)) (rising-others id s.id hi l r.1)
    where
      go :
          (other : Bool)
          → Rising s.id hi (others id l)
          → Rising lo hi (if other then s ∷ others id l else others id l)
      go true h = (r.0, h)
      go false h = lower lo s.id hi (others id l) (omega (arith, r.0)) h

  pub subscribe-IsValid :
      (t : String) (h : Handler P S) (b : MemoryBus P S) → IsValid b → IsValid (subscribe t h b).1
  unfolding subscribe
  subscribe-IsValid t h b v = record {
    rising =
        λ t'. subst (Rising 0 (b.seq + 1)) (sym (subs_of-insert t t' _ b)) (go t' (str_eq t t'));
  }
    where
      go :
          (t' : String) (same : Bool)
          → Rising 0 (b.seq + 1) (
              if same
              then subs_of t b ++ (record { id = b.seq + 1; handler = h } ∷ [])
              else subs_of t' b)
      go t' true = appended 0 b.seq (subs_of t b) h (v.rising t)
      go t' false = raise_to 0 b.seq (subs_of t' b) (v.rising t')

  unsubscribe-seq : (t : String) (id : ℕ) (b : MemoryBus P S) → (unsubscribe t id b).seq ≡ b.seq
  unfolding unsubscribe
  unsubscribe-seq t id b = go (cut id (subs_of t b))
    where
      go :
          (o : Option (List (Subscription P S)))
          → (elim o as (λ x. MemoryBus P S) [
            | none ↦ b
            | some l ↦ record b { subs = insert t l b.subs }
          ]).seq
            ≡ b.seq
      go none = refl
      go (some l) = refl

  pub unsubscribe-IsValid :
      (t : String) (id : ℕ) (b : MemoryBus P S) → IsValid b → IsValid (unsubscribe t id b)
  unsubscribe-IsValid t id b v = record {
    rising = λ t'.
        subst (λ n. Rising 0 n (subs_of t' (unsubscribe t id b))) (sym (unsubscribe-seq t id b))
          (subst (Rising 0 b.seq) (sym (unsubscribe-others b t t' id v)) (go t' (str_eq t t')));
  }
    where
      go :
          (t' : String) (same : Bool)
          → Rising 0 b.seq (if same then others id (subs_of t b) else subs_of t' b)
      go t' true = rising-others id 0 b.seq (subs_of t b) (v.rising t)
      go t' false = v.rising t'

  abbrev pub change_all : List (Change P S) → MemoryBus P S → MemoryBus P S
  change_all [] b = b
  change_all (add t h ∷ cs) b = change_all cs (subscribe t h b).1
  change_all (cancel t id ∷ cs) b = change_all cs (unsubscribe t id b)

  -- In every run of subscriptions and cancellations, of any ids, the bus stays valid.
  pub change_all-IsValid :
      (cs : List (Change P S)) (b : MemoryBus P S) → IsValid b → IsValid (change_all cs b)
  change_all-IsValid [] b v = v
  change_all-IsValid (add t h ∷ cs) b v =
      change_all-IsValid cs (subscribe t h b).1 (subscribe-IsValid t h b v)
  change_all-IsValid (cancel t id ∷ cs) b v =
      change_all-IsValid cs (unsubscribe t id b) (unsubscribe-IsValid t id b v)

pub new-IsValid : {P S : Type 0} → IsValid {P = P} {S = S} new_memory_bus
unfolding lookup
new-IsValid = record { rising = λ t. omega arith }

-- The handler writes its name down, whatever else it answers.
abbrev pub Logs : {P : Type 0} → Subscription P (List ℕ) → Type 0
Logs {P = P} s = (e : Event P) (log : List ℕ) → (s.handler e log).1 ≡ log ++ (s.id ∷ [])

abbrev pub ids : {P S : Type 0} → List (Subscription P S) → List ℕ
ids l = map (λ s. s.id) l

call_all-Logs :
    {P : Type 0} (l : List (Subscription P (List ℕ))) (e : Event P) (log : List ℕ)
    → All Logs l
    → (call_all l e log).1 ≡ log ++ ids l
unfolding call_all
call_all-Logs [] e log h = sym (append-nil log)
call_all-Logs (s ∷ l) e log h =
    call_all-Logs l e (s.handler e log).1 h.1
    ∙ (ap (λ g. g ++ ids l) (h.0 e log) ∙ append_assoc log (s.id ∷ []) (ids l))

-- A publication calls every handler of the event's type and then every wildcard handler, each once and in
-- the order of its list, also when handlers before it fail or panic.
pub publish_calls :
    {P : Type 0} (b : MemoryBus P (List ℕ)) (e : Event P) (log : List ℕ)
    → All Logs (subs_of e.event_type b ++ subs_of "*" b)
    → (publish true (some e) b log).1 ≡ log ++ ids (subs_of e.event_type b ++ subs_of "*" b)
unfolding publish
publish_calls b e log h = call_all-Logs (subs_of e.event_type b ++ subs_of "*" b) e log h
