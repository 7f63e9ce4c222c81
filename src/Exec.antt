-- ===== src/Exec.antt =====
-- Methods that change state and can return an error: what was changed before the error stays.
pub mod Frames
pub mod Sealed
use kube_ovn_dra_driver.Prelude.{
  ◌≡◌, refl, Error, Result, ok, err, String, List, wrapping as wrap_error,
}

abbrev pub Exec {ℓ} : Type ℓ → Type ℓ → Type ℓ
Exec S A = S → Result A × S

module _ {ℓ} {S A : Type ℓ} where
  abbrev pub pure : A → Exec S A
  pure a s = (ok a, s)

  abbrev pub lift : Result A → Exec S A
  lift r s = (r, s)

  abbrev pub fail : Error → Exec S A
  fail e s = (err e, s)

  -- return fmt.Errorf(format + ": %w", …, err)
  abbrev pub wrapping : String → List String → Exec S A → Exec S A
  wrapping f args m s = let (r, s') = m s in (wrap_error f args r, s')

module _ {ℓ} {S A B : Type ℓ} where
  infixl 10 ◌>>=◌ ◌>>◌
  -- What comes after a call: the rest of the method, or its error.
  abbrev continue : Result A → (A → Exec S B) → Exec S B
  continue (err e) rest st = (err e, st)
  continue (ok a) rest st = rest a st

  abbrev pub ◌>>=◌ : Exec S A → (A → Exec S B) → Exec S B
  first >>= rest = λ st. let (r, st') = first st in continue r rest st'

  abbrev pub ◌>>◌ : Exec S A → Exec S B → Exec S B
  first >> rest = first >>= λ _. rest

  -- A block that succeeds has a first part that does.
  pub bind-eq-ok :
      (m : Exec S A) (f : A → Exec S B) (s s' : S) (b : B)
      → (m >>= f) s ≡ (ok b, s')
      → (a : A) × (t : S) × (m s ≡ (ok a, t)) × (f a t ≡ (ok b, s'))
  bind-eq-ok m f s s' b h = go (m s) refl h
    where
      go :
          (r : Result A × S)
          → m s ≡ r
          → continue r.0 f r.1 ≡ (ok b, s')
          → (a : A) × (t : S) × (m s ≡ (ok a, t)) × (f a t ≡ (ok b, s'))
      go (ok a, t) e h = (a, t, e, h)
      go (err x, t) e h = cc

pub wrapping-eq-ok {ℓ} :
    {S A : Type ℓ} (f : String) (args : List String) (m : Exec S A) (s s' : S) (a : A)
    → wrapping f args m s ≡ (ok a, s')
    → m s ≡ (ok a, s')
wrapping-eq-ok {S = S} {A = A} f args m s s' a h = go (m s) h
  where
    go : (r : Result A × S) → wrapping f args (lift r.0) r.1 ≡ (ok a, s') → r ≡ (ok a, s')
    go (ok b, t) e = e
    go (err x, t) e = cc
