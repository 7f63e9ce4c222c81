-- ===== src/Publisher/Counts.antt =====
-- The counts that internal/publisher/subnet.go publishes, on int64.
use kube_ovn_dra_driver.Prelude.{◌+◌, ◌^◌, ◌≤◌, ◌<◌, true, ◌≡◌, ◌↔◌, ◌⊎◌, arith, leb, if◌then◌else◌}
use kube_ovn_dra_driver.Publisher.{Family, Subnet, capacity, full}

-- Counts as kube-ovn reports them: not negative, and their sum fits an int64.
pub record IsCounted (f : Family) : Type 0 where
  pub sum_fits : f.free + f.held < 2 ^ 63
  pub allocated_fits : f.allocated < 2 ^ 63

-- The published capacity of a family is never more than 2 ^ 53, also where the int64 sum overflows
-- or is negative, and is the sum of the free and the held addresses where that fits and is no more.
pub capacity_saturates :
    (f : Family)
    → (capacity f ≤ 2 ^ 53)
      × ((2 ^ 63 ≤ f.free + f.held)
          ⊎ (capacity f ≡ (if leb (f.free + f.held) (2 ^ 53) then f.free + f.held else 2 ^ 53)))
unfolding capacity
capacity_saturates f = (ground arith, ground arith)

-- The claims use up the family: it is there, and they take all that is free or held, or the maximum.
abbrev pub UsedUp : Family → Type 0
UsedUp f = (f.enabled ≡ true) × ((f.free + f.held ≤ f.allocated) ⊎ (2 ^ 53 ≤ f.allocated))

-- With counts that fit an int64, Full holds exactly when the claims use up one of the families.
pub full_iff :
    (s : Subnet) → IsCounted s.v4 → IsCounted s.v6 → (full s ≡ true) ↔ (UsedUp s.v4 ⊎ UsedUp s.v6)
unfolding full capacity
full_iff s a b = (
  (λ h. ground (arith, h, a.sum_fits, a.allocated_fits, b.sum_fits, b.allocated_fits)),
  (λ h. ground (arith, h, a.sum_fits, a.allocated_fits, b.sum_fits, b.allocated_fits)),
)
