-- ===== src/Exec/Frames.antt =====
-- What an action leaves as it was, as a reflexive and transitive relation from the state before it to
-- the state after it; one rule for each way to build an action.
use kube_ovn_dra_driver.Prelude.{String, List, Error, Result, ok, err}
use kube_ovn_dra_driver.Exec.{Exec, pure, lift, fail, wrapping, ◌>>=◌}

pub record IsPreorder {ℓ} {S : Type ℓ} (R : S → S → Type ℓ) : Type ℓ where
  pub refl_at : (s : S) → R s s
  pub trans_at : (s t u : S) → R s t → R t u → R s u

-- Whether it returns or fails, `m` leaves the state related.
pub record Frames {ℓ} {S A : Type ℓ} (R : S → S → Type ℓ) (m : Exec S A) : Type ℓ where
  pub at : (s : S) → R s (m s).1

module _ {ℓ} {S A : Type ℓ} {R : S → S → Type ℓ} (p : IsPreorder R) where
  pub Frames-pure : (a : A) → Frames R (pure a)
  Frames-pure a = record { at = λ s. p.refl_at s }

  pub Frames-fail : (e : Error) → Frames R (fail {A = A} e)
  Frames-fail e = record { at = λ s. p.refl_at s }

  pub Frames-lift : (r : Result A) → Frames R (lift r)
  Frames-lift r = record { at = λ s. p.refl_at s }

  pub Frames-wrapping :
      (f : String) (args : List String) (m : Exec S A) → Frames R m → Frames R (wrapping f args m)
  Frames-wrapping f args m k = record { at = λ s. k.at s }

module _ {ℓ} {S A B : Type ℓ} {R : S → S → Type ℓ} (p : IsPreorder R) where
  Frames-continue :
      (r : Result A) (f : A → Exec S B) → ((a : A) → Frames R (f a)) → Frames R (lift r >>= f)
  Frames-continue (ok a) f k = record { at = λ s. (k a).at s }
  Frames-continue (err e) f k = record { at = λ s. p.refl_at s }

  pub Frames-bind :
      (m : Exec S A) (f : A → Exec S B)
      → Frames R m
      → ((a : A) → Frames R (f a))
      → Frames R (m >>= f)
  Frames-bind m f km kf = record {
    at = λ s. let (r, s') = m s in p.trans_at s s' _ (km.at s) ((Frames-continue r f kf).at s');
  }
