-- ===== src/Publisher/Device/Pools.antt =====
-- What the scheduler and the plugin read of the devices and pools of internal/publisher.
use kube_ovn_dra_driver.Prelude.{
  ◌≤◌, String, len, Bool, true, false, none, some, [], ◌∷◌, ◌≡◌, ◌≢◌, inl, inr, refl, arith, All,
  if◌then◌else◌, Bool-cases,
}
use kube_ovn_dra_driver.NicPrepare.Request.{validate_secondary_provider}
use kube_ovn_dra_driver.Publisher.{Subnet, exhausted}
use kube_ovn_dra_driver.Publisher.Device.{
  NameTools, publishable, with_attribute, capacities, attributes, device, string_attribute, pool,
}

-- A device that passes Publishable is one that the plugin can prepare: where the provider is at most
-- 64 bytes long, the plugin reads from the published device the name and the provider of its Subnet,
-- under any driver name, and accepts that provider for a secondary NIC.
pub device_read_back :
    (t : NameTools) (s : Subnet) (with_capacity : Bool) (driver : String)
    → publishable s ≡ none
    → len s.provider ≤ 64
    → (string_attribute (device t s with_capacity) driver "subnetName" ≡ s.name)
      × (string_attribute (device t s with_capacity) driver "provider" ≡ s.provider)
      × (validate_secondary_provider s.provider s.name ≡ none)
unfolding publishable device attributes string_attribute validate_secondary_provider with_attribute
device_read_back t s with_capacity driver h l =
    (ground arith, ground (arith, h, l), ground (arith, h))

device-positive :
    (t : NameTools) (s : Subnet) (name : String)
    → exhausted s ≡ false
    → (device t s true).capacities name ≢ some 0
unfolding exhausted device capacities
device-positive t s name e z = ground (arith, e, z)

-- A pool with capacities has a device exactly when the Subnet is not exhausted, and never a device
-- with a capacity of zero, which would overbook the Subnet.
pub pool_never_overbooks :
    (t : NameTools) (s : Subnet) (name : String)
    → ((pool t s true).devices ≡ (if exhausted s then [] else device t s true ∷ []))
      × All (λ d. d.capacities name ≢ some 0) (pool t s true).devices
unfolding pool
pool_never_overbooks t s name = elim (Bool-cases (exhausted s)) [
  | inl e ↦ rw e (refl, tt)
  | inr e ↦ rw e (refl, (device-positive t s name e, tt))
]
