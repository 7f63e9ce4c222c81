-- ===== src/Prelude/Lists.antt =====
-- Lists over the native numbers and Boolean tests, and Go maps with text keys as functions.
use Prim.Native.Nat.{ℕ, zero, suc}
use Prim.Native.String.{String}
use mathlib.Core.Path.{◌≡◌, refl}
use mathlib.Core.Bool.{Bool, true, false, ◌&&◌, ◌||◌}
use mathlib.Core.Option.{Option, none, some}
use mathlib.Core.List.{List, [], ◌∷◌, ◌++◌}
use native.Mathlib.Omega.{arith}
use text.Mathlib.Text.{◌==◌}
use kube_ovn_dra_driver.Prelude.Tests.{if◌then◌else◌}

module _ {ℓ} {A : Type ℓ} where
  abbrev pub length : List A → ℕ
  length [] = 0
  length (x ∷ xs) = suc (length xs)

  -- Go's `for … if !test { continue }; out = append(out, x)`.
  abbrev pub keep : (A → Bool) → List A → List A
  keep test [] = []
  keep test (x ∷ xs) = let rest = keep test xs in if test x then x ∷ rest else rest

  abbrev pub any : (A → Bool) → List A → Bool
  any test [] = false
  any test (x ∷ xs) = test x || any test xs

  abbrev pub all : (A → Bool) → List A → Bool
  all test [] = true
  all test (x ∷ xs) = test x && all test xs

  abbrev pub All {κ} : (A → Type κ) → List A → Type κ
  All P [] = Unit
  All P (x ∷ xs) = P x × All P xs

  abbrev pub take : ℕ → List A → List A
  take zero xs = []
  take (suc n) [] = []
  take (suc n) (x ∷ xs) = x ∷ take n xs

  abbrev pub is_empty : List A → Bool
  is_empty [] = true
  is_empty (x ∷ xs) = false

  pub keep-append :
      (test : A → Bool) (xs ys : List A) → keep test (xs ++ ys) ≡ keep test xs ++ keep test ys
  keep-append test [] ys = refl
  keep-append test (x ∷ xs) ys = ground (arith, keep-append test xs ys)

-- Whether a list of texts has the text: Go's slices.Contains.
abbrev pub contains : List String → String → Bool
contains [] a = false
contains (x ∷ xs) a = x == a || contains xs a

-- A Go map with text keys: `none` where the key is missing.
abbrev pub Map {ℓ} : Type ℓ → Type ℓ
Map V = String → Option V

abbrev pub empty_map {ℓ} : {V : Type ℓ} → Map V
empty_map k = none

-- m[k] = v, and delete(m, k) for `none`.
abbrev pub update {ℓ} : {V : Type ℓ} → Map V → String → Option V → Map V
update m k v j = if k == j then v else m j

-- m[k] for a map of slices: nil where the key is missing.
abbrev pub get_list {ℓ} : {V : Type ℓ} → Option (List V) → List V
get_list none = []
get_list (some xs) = xs

-- m[k] for a map of strings: "" where the key is missing.
abbrev pub get_text : Option String → String
get_text none = ""
get_text (some s) = s
