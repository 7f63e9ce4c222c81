-- ===== src/Prelude/Results.antt =====
-- Go's errors as values: messages by format and arguments, %w wrapping, errors.Join.
use Prim.Native.String.{String}
use mathlib.Core.Path.{◌≡◌, refl}
use mathlib.Core.Logic.{◌⊎◌, inl, inr}
use mathlib.Core.Bool.{Bool, true, false}
use mathlib.Core.Option.{Option, none, some}
use mathlib.Core.List.{List, [], ◌∷◌}

pub data Error : Type 0 where
  message : String → List String → Error
  wrap : String → List String → Error → Error
  joined : Error → Error → Error

-- A value, or the error that is not nil.
pub data Result {ℓ} (A : Type ℓ) : Type ℓ where
  ok : A → Result A
  err : Error → Result A

-- `if err != nil { return fmt.Errorf(format + ": %w", …, err) }`
abbrev pub wrapping {ℓ} : {A : Type ℓ} → String → List String → Result A → Result A
wrapping f args (ok a) = ok a
wrapping f args (err e) = err (wrap f args e)

-- `if !test { return e }`
abbrev pub guard : Bool → Error → Result (Unit {0})
guard test e = elim test [ true ↦ ok tt | false ↦ err e ]

-- `if err != nil { return err }`, and the rest of the function.
module _ {ℓ κ} {A : Type ℓ} {B : Type κ} where
  infixl 5 ◌>>=◌ ◌>>◌
  abbrev pub ◌>>=◌ : Result A → (A → Result B) → Result B
  r >>= rest = elim r [ ok a ↦ rest a | err e ↦ err e ]

  abbrev pub ◌>>◌ : Result A → Result B → Result B
  r >> rest = r >>= λ _. rest

-- errors.Join: nil if every error is nil.
abbrev pub join_errors : List Error → Option Error
join_errors [] = none
join_errors (e ∷ es) = some (elim (join_errors es) [ none ↦ e | some rest ↦ joined e rest ])

pub >>=-eq-ok {ℓ κ} :
    {A : Type ℓ} {B : Type κ} (r : Result A) (rest : A → Result B) {y : B}
    → (r >>= rest) ≡ ok y
    → (x : A) × (r ≡ ok x) × (rest x ≡ ok y)
>>=-eq-ok (err e) rest h = cc
>>=-eq-ok (ok x) rest h = (x, refl, h)

pub ok-injective {ℓ} : {A : Type ℓ} {a b : A} → ok a ≡ ok b → a ≡ b
ok-injective h = cc h

pub wrapping-eq-ok {ℓ} :
    {A : Type ℓ} (f : String) (args : List String) (m : Result A) {a : A}
    → wrapping f args m ≡ ok a
    → m ≡ ok a
wrapping-eq-ok f args (ok a) h = h
wrapping-eq-ok f args (err e) h = cc

pub Result-cases {ℓ} :
    {A : Type ℓ} (m : Result A) → ((a : A) × (m ≡ ok a)) ⊎ ((e : Error) × (m ≡ err e))
Result-cases (ok a) = inl (a, refl)
Result-cases (err e) = inr (e, refl)
