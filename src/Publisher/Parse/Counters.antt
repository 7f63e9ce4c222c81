-- ===== src/Publisher/Parse/Counters.antt =====
-- The counters of statusCount in internal/publisher/subnet.go, for a status of any shape.
use kube_ovn_dra_driver.Prelude.{ℕ, ◌^◌, ◌≤◌, ◌<◌, String, false, Option, none, some, ◌≡◌, arith}
use kube_ovn_dra_driver.Publisher.{min64, max64, max_count}
use kube_ovn_dra_driver.Publisher.Parse.{
  Json, int64, int, float, text, other, Unstructured, Floats, entry, status_count, count_value,
  scanned_count,
}

-- What Go says of float64: a number that is neither negative nor at least 2 ^ 53 converts to an
-- int64 below that; the conversion of NaN is left to the implementation.
pub record FloatLaws (f : Floats) : Type 0 where
  pub to_int64_small :
      (x : ℕ)
      → f.is_nan x ≡ false
      → f.is_negative x ≡ false
      → f.is_large x ≡ false
      → f.to_int64 x ≤ 2 ^ 53
  pub min_large_small :
      (x : ℕ) → f.is_nan x ≡ false → f.is_negative x ≡ false → f.to_int64 (f.min_large x) ≤ 2 ^ 53

-- A pattern of 64 bits, or a text that fmt.Sscan does not read as NaN.
abbrev pub IsReadable : Floats → Option Json → Type 0
IsReadable f (some (int64 n)) = n < 2 ^ 64
IsReadable f (some (int n)) = n < 2 ^ 64
IsReadable f (some (text s)) = (x : ℕ) → f.scan s ≡ some x → f.is_nan x ≡ false
IsReadable f _ = Unit {0}

bounded-le : (n : ℕ) → n < 2 ^ 64 → min64 (max64 n 0) max_count ≤ 2 ^ 53
bounded-le n h = ground arith

module _ (f : Floats) (laws : FloatLaws f) where
  scanned_count-le :
      (o : Option ℕ) → ((x : ℕ) → o ≡ some x → f.is_nan x ≡ false) → scanned_count f o ≤ 2 ^ 53
  unfolding scanned_count
  scanned_count-le none h = omega arith
  scanned_count-le (some x) h = ground (arith, h x, laws.min_large_small x)

  count_value-le : (o : Option Json) → IsReadable f o → count_value f o ≤ 2 ^ 53
  unfolding count_value
  count_value-le (some (int64 n)) h = bounded-le n h
  count_value-le (some (int n)) h = bounded-le n h
  count_value-le (some (float x)) h = ground (arith, laws.to_int64_small x)
  count_value-le (some (text s)) h = scanned_count-le (f.scan s) h
  count_value-le (some other) h = omega arith
  count_value-le none h = omega arith

  -- A counter of free addresses is never negative and never more than 2 ^ 53, whatever type the
  -- status has it in and however large or negative it is; this needs that a text is not one that
  -- fmt.Sscan reads as NaN, whose conversion to int64 Go leaves open.
  pub status_count_bounded :
      (obj : Unstructured) (field : String)
      → IsReadable f (entry obj.status field)
      → status_count f obj field ≤ 2 ^ 53
  unfolding status_count
  status_count_bounded obj field h = count_value-le (entry obj.status field) h
