-- ===== src/Exec/Sealed.antt =====
-- The ways to build an action as definitions that stay shut, so that the rules of `Frames` find them
-- in a goal: Go's `if err != nil { return … }`, deferred calls, and errors that are passed over.
use kube_ovn_dra_driver.Prelude.{
  Bool, true, false, Option, none, some, String, List, [], ◌∷◌, Error, Result, ok, err,
  if◌then◌else◌, ◌≡◌, refl,
}
use kube_ovn_dra_driver.Exec
use kube_ovn_dra_driver.Exec.{Exec}
use kube_ovn_dra_driver.Exec.Frames
use kube_ovn_dra_driver.Exec.Frames.{IsPreorder, Frames}

abbrev pub value {ℓ} : {A : Type ℓ} → Result A → Option A
value (ok a) = some a
value (err e) = none

module _ {ℓ} {S A : Type ℓ} where
  unfoldable pub pure : A → Exec S A
  pure a = Exec.pure a

  unfoldable pub fail : Error → Exec S A
  fail e = Exec.fail e

  -- `x, err := f(…)` for a function that does not change the state.
  unfoldable pub lift : Result A → Exec S A
  lift r = Exec.lift r

  -- return fmt.Errorf(format + ": %w", …, err)
  unfoldable pub wrapping : String → List String → Exec S A → Exec S A
  wrapping f args m = Exec.wrapping f args m

  -- defer undo()
  unfoldable pub deferring : (S → S) → Exec S A → Exec S A
  deferring undo m s = let (r, s') = m s in (r, undo s')

  -- `x, err := m`, where the error is only tested.
  unfoldable pub attempt : Exec S A → Exec S (Option A)
  attempt m s = let (r, s') = m s in (ok (value r), s')

module _ {ℓ} {S A B : Type ℓ} where
  infixl 10 ◌>>=◌ ◌>>◌
  unfoldable pub ◌>>=◌ : Exec S A → (A → Exec S B) → Exec S B
  m >>= f = Exec.◌>>=◌ m f

  abbrev pub ◌>>◌ : Exec S A → Exec S B → Exec S B
  m >> n = m >>= λ _. n

module _ {ℓ} {S A B : Type ℓ} where
  pub bind-eq-ok :
      (m : Exec S A) (f : A → Exec S B) (s s' : S) (b : B)
      → (m >>= f) s ≡ (ok b, s')
      → (a : A) × (t : S) × (m s ≡ (ok a, t)) × (f a t ≡ (ok b, s'))
  unfolding ◌>>=◌
  bind-eq-ok m f s s' b h = Exec.bind-eq-ok m f s s' b h

-- `if err := m; err != nil && !test(err) { return err }`
abbrev pub tolerate : (Error → Bool) → Result (Unit {0}) → Result (Unit {0})
tolerate test (ok u) = ok tt
tolerate test (err e) = if test e then ok tt else err e

unfoldable pub tolerating : {S : Type 0} → (Error → Bool) → Exec S (Unit {0}) → Exec S (Unit {0})
tolerating test m s = let (r, s') = m s in (tolerate test r, s')

-- for _, x := range xs { if err := body; err != nil { return err } }
unfoldable pub for_each : {S A : Type 0} → List A → (A → Exec S (Unit {0})) → Exec S (Unit {0})
for_each [] body = pure tt
for_each (x ∷ xs) body = body x >> for_each xs body

module _ {ℓ} {S A : Type ℓ} {R : S → S → Type ℓ} (p : IsPreorder R) where
  pub Frames-pure : (a : A) → Frames R (pure a)
  unfolding pure
  Frames-pure a = Frames.Frames-pure p a

  pub Frames-fail : (e : Error) → Frames R (fail {A = A} e)
  unfolding fail
  Frames-fail e = Frames.Frames-fail p e

  pub Frames-lift : (r : Result A) → Frames R (lift r)
  unfolding lift
  Frames-lift r = Frames.Frames-lift p r

module _ {ℓ} {S A : Type ℓ} {R : S → S → Type ℓ} where
  pub Frames-wrapping :
      (f : String) (args : List String) (m : Exec S A) → Frames R m → Frames R (wrapping f args m)
  unfolding wrapping
  Frames-wrapping f args m k = record { at = λ s. k.at s }

  pub Frames-attempt : (m : Exec S A) → Frames R m → Frames R (attempt m)
  unfolding attempt
  Frames-attempt m k = record { at = λ s. k.at s }

  pub Frames-if :
      (b : Bool) (m n : Exec S A) → Frames R m → Frames R n → Frames R (if b then m else n)
  Frames-if true m n km kn = km
  Frames-if false m n km kn = kn

module _ {ℓ} {S A B : Type ℓ} {R : S → S → Type ℓ} (p : IsPreorder R) where
  pub Frames-bind :
      (m : Exec S A) (f : A → Exec S B)
      → Frames R m
      → ((a : A) → Frames R (f a))
      → Frames R (m >>= f)
  unfolding ◌>>=◌
  Frames-bind m f km kf = Frames.Frames-bind p m f km kf

module _ {ℓ} {S A B : Type ℓ} {R : S → S → Type ℓ} (p : IsPreorder R) where
  -- What follows `x, err := f(…)` may use that the call returned `x`.
  pub Frames-bind-lift :
      (f : String) (args : List String) (r : Result A) (rest : A → Exec S B)
      → ((a : A) → r ≡ ok a → Frames R (rest a))
      → Frames R (wrapping f args (lift r) >>= rest)
  unfolding wrapping lift ◌>>=◌
  Frames-bind-lift f args (ok a) rest k = record { at = λ s. (k a refl).at s }
  Frames-bind-lift f args (err e) rest k = record { at = λ s. p.refl_at s }

module _ {S : Type 0} {R : S → S → Type 0} where
  pub Frames-tolerating :
      (test : Error → Bool) (m : Exec S (Unit {0})) → Frames R m → Frames R (tolerating test m)
  unfolding tolerating
  Frames-tolerating test m k = record { at = λ s. k.at s }

module _ {S A : Type 0} {R : S → S → Type 0} (p : IsPreorder R) where
  pub Frames-for_each :
      (xs : List A) (body : A → Exec S (Unit {0}))
      → ((a : A) → Frames R (body a))
      → Frames R (for_each xs body)
  unfolding for_each
  Frames-for_each [] body k = Frames-pure p tt
  Frames-for_each (x ∷ xs) body k =
      Frames-bind p (body x) (λ _. for_each xs body) (k x) (λ _. Frames-for_each xs body k)

pub ruleset frames_rules = (
  Frames-pure, Frames-fail, Frames-lift, Frames-wrapping, Frames-attempt, Frames-if, Frames-bind,
  Frames-tolerating, Frames-for_each,
)
