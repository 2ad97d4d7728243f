-- ===== src/Common/Action.antt =====
-- Stateful code that may fail: an action keeps what it has written when it fails. `Ensures` is its
-- total specification, with one rule for each way to build an action.
use mathlib.Core.Path.{◌≡◌, refl}
use mathlib.Core.Bool.{Bool, true, false}
use opendeploy.Common.Results.{Result, ok, err}

abbrev pub Action : Type 0 → Type 0 → Type 0 → Type 0
Action E S A = S → Result E A × S

module _ {E S : Type 0} where
  unfoldable pub pure : {A : Type 0} → A → Action E S A
  pure a s = (ok a, s)

  unfoldable pub raise : {A : Type 0} → E → Action E S A
  raise e s = (err e, s)

  abbrev pub continue : {A B : Type 0} → Result E A → (A → Action E S B) → Action E S B
  continue (ok a) f s = f a s
  continue (err e) f s = (err e, s)

  infixl 5 ◌>>=◌ ◌>>◌
  unfoldable pub ◌>>=◌ : {A B : Type 0} → Action E S A → (A → Action E S B) → Action E S B
  ◌>>=◌ m f s = let (r, t) = m s in continue r f t

  unfoldable pub ◌>>◌ : {A B : Type 0} → Action E S A → Action E S B → Action E S B
  unfolding ◌>>=◌
  m >> k = m >>= λ _. k

  unfoldable pub guard : Bool → E → Action E S (Unit {0})
  unfolding pure raise
  guard true e = pure tt
  guard false e = raise e

  abbrev pub undone : {A : Type 0} → Action E S (Unit {0}) → Result E A × S → Result E A × S
  undone undo (ok a, t) = (ok a, t)
  undone undo (err e, t) = (err e, (undo t).1)

  -- `if err := m; err != nil { undo; return err }`
  unfoldable pub or_undo : {A : Type 0} → Action E S A → Action E S (Unit {0}) → Action E S A
  or_undo m undo s = undone undo (m s)

  -- `_ = m`
  unfoldable pub ignore : Action E S (Unit {0}) → Action E S (Unit {0})
  ignore m s = (ok tt, (m s).1)

  abbrev pub Post : {A : Type 0} → (A → S → Type 0) → (S → Type 0) → Result E A × S → Type 0
  Post Q F (ok a, s) = Q a s
  Post Q F (err e, s) = F s

  pub record Ensures {A : Type 0} (P : S → Type 0) (m : Action E S A) (Q : A → S → Type 0)
      (F : S → Type 0) : Type 0 where
    pub at : (s : S) → P s → Post Q F (m s)

module _ {E S A : Type 0} {F : S → Type 0} where
  pub Ensures-pure :
      (P : S → Type 0) (Q : A → S → Type 0) (a : A)
      → ((s : S) → P s → Q a s)
      → Ensures {E = E} {S = S} P (pure a) Q F
  unfolding pure
  Ensures-pure P Q a h = record { at = h }

  pub Ensures-weaken :
      {P P' : S → Type 0} {m : Action E S A} {Q Q' : A → S → Type 0}
      → Ensures P m Q F
      → ((s : S) → P' s → P s)
      → ((a : A) (s : S) → Q a s → Q' a s)
      → Ensures P' m Q' F
  Ensures-weaken {m = m} {Q} {Q'} k pre post = record { at = λ s h. go (m s) (k.at s (pre s h)) }
    where
      go : (r : Result E A × S) → Post Q F r → Post Q' F r
      go (ok a, t) q = post a t q
      go (err e, t) q = q

module _ {E S B : Type 0} {F : S → Type 0} where
  pub Ensures-bind :
      {A : Type 0} {P : S → Type 0} {Q : A → S → Type 0} {R : B → S → Type 0} (m : Action E S A)
      (f : A → Action E S B)
      → Ensures P m Q F
      → ((a : A) → Ensures (Q a) (f a) R F)
      → Ensures P (m >>= f) R F
  unfolding ◌>>=◌
  Ensures-bind {A} {Q = Q} {R} m f km kf = record { at = λ s h. go (m s) (km.at s h) }
    where
      go : (r : Result E A × S) → Post Q F r → Post R F (continue r.0 f r.1)
      go (ok a, t) q = (kf a).at t q
      go (err e, t) q = q

  pub Ensures-then :
      {P Q : S → Type 0} {R : B → S → Type 0} (m : Action E S (Unit {0})) (k : Action E S B)
      → Ensures P m (λ u s. Q s) F
      → Ensures Q k R F
      → Ensures P (m >> k) R F
  unfolding ◌>>◌
  Ensures-then m k km kk = Ensures-bind m (λ u. k) km (λ u. kk)

module _ {E S : Type 0} {P F : S → Type 0} (drop : (s : S) → P s → F s) where
  pub Ensures-guard : (b : Bool) (e : E) → Ensures P (guard b e) (λ u s. P s × (b ≡ true)) F
  unfolding guard pure raise
  Ensures-guard true e = record { at = λ s h. (h, refl) }
  Ensures-guard false e = record { at = drop }

module _ {E S A : Type 0} {F : S → Type 0} where
  pub Ensures-or_undo :
      {P : S → Type 0} {Q : A → S → Type 0} (m : Action E S A) (undo : Action E S (Unit {0}))
      → ((s : S) → F s → F (undo s).1)
      → Ensures P m Q F
      → Ensures P (or_undo m undo) Q F
  unfolding or_undo
  Ensures-or_undo {Q = Q} m undo f k = record { at = λ s h. go (m s) (k.at s h) }
    where
      go : (r : Result E A × S) → Post Q F r → Post Q F (undone undo r)
      go (ok a, t) q = q
      go (err e, t) q = f t q

  -- a fact that holds before
  pub Ensures-given :
      {P : S → Type 0} {Q : A → S → Type 0} {G : Type 0} (m : Action E S A)
      → (G → Ensures P m Q F)
      → Ensures (λ s. G × P s) m Q F
  Ensures-given m k = record { at = λ s h. (k h.0).at s h.1 }
