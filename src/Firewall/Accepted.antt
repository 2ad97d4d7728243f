-- ===== src/Firewall/Accepted.antt =====
-- What an accepted port is.
use opendeploy.Common.{
  ℕ, ◌≤◌, ◌<◌, Bool, true, false, ◌||◌, Option, none, some, List, [], ◌∷◌, Result, ok, err, ◌>>=◌,
  ◌>>◌, refuse_if, if◌then◌else◌, ltb, ◌==◌, ◌≡◌, refl, ◌⊎◌, inl, inr, arith, map, length, All,
}
use opendeploy.Common.Text.{Text, split, add_head}
use opendeploy.Firewall.Rules.{
  Net, RuleError, bad_port, bad_range, too_many_parts, is_service, separator, port_number,
  port_numbers, is_falling, check_range, validate_port,
}

abbrev pub IsPort : ℕ → Type 0
IsPort n = (1 ≤ n) × (n ≤ 65535)

-- one port, or two of which the first is the lower one
abbrev pub IsRange : List ℕ → Type 0
IsRange [] = ⊥
IsRange (a ∷ []) = Unit {0}
IsRange (a ∷ b ∷ []) = a < b
IsRange (a ∷ b ∷ c ∷ ns) = ⊥

module _ (net : Net) where
  -- the numbers are the parts' ones, and ports
  IsNumbers : List Text → List ℕ → Type 0
  IsNumbers ps ns = (map net.atoi ps ≡ map some ns) × All IsPort ns × (length ps ≡ length ns)

  Numbers : List Text → Result RuleError (List ℕ) → Type 0
  Numbers ps (ok ns) = IsNumbers ps ns
  Numbers ps (err e) = Unit {0}

  port_numbers-Numbers : (ps : List Text) → Numbers ps (port_numbers net ps)
  unfolding port_numbers Numbers IsNumbers
  port_numbers-Numbers [] = (refl, tt, refl)
  port_numbers-Numbers (p ∷ ps) =
      go (net.atoi p) refl (port_numbers net ps) (port_numbers-Numbers ps)
    where
      more :
          (n : ℕ)
          → net.atoi p ≡ some n
          → IsPort n
          → (r : Result RuleError (List ℕ)) → Numbers ps r
          → Numbers (p ∷ ps) (r >>= (λ ns. ok (n ∷ ns)))
      more n e k (ok ns) h = (cc, (k, h.1), omega (arith, h.2))
      more n e k (err x) h = tt

      test :
          (n : ℕ) (b : Bool)
          → (ltb n 1 || ltb 65535 n) ≡ b
          → net.atoi p ≡ some n
          → (r : Result RuleError (List ℕ)) → Numbers ps r
          → Numbers
              (p ∷ ps)
              ((if b then err bad_port else ok n) >>= (λ m. r >>= (λ ns. ok (m ∷ ns))))
      test n true h e r k = tt
      test n false h e r k = more n e (ground (arith, h)) r k

      go :
          (o : Option ℕ)
          → net.atoi p ≡ o
          → (r : Result RuleError (List ℕ)) → Numbers ps r
          → Numbers (p ∷ ps) (port_number net o >>= (λ m. r >>= (λ ns. ok (m ∷ ns))))
      go none e r k = tt
      go (some n) e r k = test n (ltb n 1 || ltb 65535 n) refl e r k

  -- the value is one port or a range of ports, between its separators
  unfoldable pub IsPorts : Text → Type 0
  IsPorts value =
      (ns : List ℕ) × (map net.atoi (split value (separator value)) ≡ map some ns)
      × All IsPort ns
      × IsRange ns

  Ranged : Text → Result RuleError (List ℕ) → Type 0
  Ranged value (ok ns) = IsPorts value
  Ranged value (err e) = Unit {0}

  in_order :
      (ns : List ℕ)
      → ltb 2 (length ns) ≡ false
      → 1 ≤ length ns
      → is_falling net ns ≡ false
      → IsRange ns
  in_order [] e h f = ground arith
  in_order (a ∷ []) e h f = tt
  in_order (a ∷ b ∷ []) e h f = ground (arith, f)
  in_order (a ∷ b ∷ c ∷ ns) e h f = ground (arith, e)

  parted : (s : Text) (c : ℕ) → 1 ≤ length (split s c)
  unfolding split add_head
  parted [] c = omega arith
  parted (b ∷ s) c = go (b == c) (split s c) (parted s c)
    where
      go :
          (x : Bool) (ps : List Text)
          → 1 ≤ length ps
          → 1 ≤ length (if x then [] ∷ ps else add_head b ps)
      go true ps h = omega arith
      go false [] h = ground arith
      go false (p ∷ ps) h = omega arith

  check_range-Ranged : (value : Text) → Ranged value (check_range net value)
  unfolding check_range Ranged IsPorts Numbers IsNumbers
  check_range-Ranged value =
      go (ltb 2 (length (split value (separator value)))) refl
        (port_numbers net (split value (separator value)))
        (port_numbers-Numbers (split value (separator value)))
    where
      order :
          (ns : List ℕ) (b : Bool)
          → is_falling net ns ≡ b
          → ltb 2 (length (split value (separator value))) ≡ false
          → IsNumbers (split value (separator value)) ns
          → Ranged value (refuse_if b bad_range >> ok ns)
      order ns true f e h = tt
      order ns false f e h = (
        ns,
        h.0,
        h.1,
        in_order ns (ground (arith, e, h.2)) (ground (arith, h.2, parted value (separator value)))
            f,
      )

      go :
          (b : Bool)
          → ltb 2 (length (split value (separator value))) ≡ b
          → (r : Result RuleError (List ℕ)) → Numbers (split value (separator value)) r
          → Ranged value (
              refuse_if b too_many_parts
              >> (r >>= (λ ns. refuse_if (is_falling net ns) bad_range >> ok ns)))
      go true e r h = tt
      go false e (err x) h = tt
      go false e (ok ns) h = order ns (is_falling net ns) refl e h

-- A port that validatePort accepts is the name of a service, or one or two numbers between its separators,
-- each from 1 to 65535, the first of two below the second.
pub validate_port_ok :
    (net : Net) (value : Text)
    → validate_port net value ≡ ok tt
    → (is_service value ≡ true) ⊎ IsPorts net value
unfolding validate_port Ranged
validate_port_ok net value e =
    go (is_service value) refl (check_range net value) (check_range-Ranged net value) e
  where
    go :
        (b : Bool)
        → is_service value ≡ b
        → (r : Result RuleError (List ℕ)) → Ranged net value r
        → ◌≡◌ {A = Result RuleError (Unit {0})} (if b then ok tt else r >>= (λ ns. ok tt)) (ok tt)
        → (is_service value ≡ true) ⊎ IsPorts net value
    go true h r k e = inl h
    go false h (ok ns) k e = inr k
    go false h (err x) k e = ground arith
