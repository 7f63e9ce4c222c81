-- ===== src/Witnesses/Published.antt =====
-- The properties of the published devices at concrete Subnets.
use kube_ovn_dra_driver.Prelude.{
  String, true, false, none, some, List, [], ◌∷◌, ◌≡◌, ◌≢◌, ◌↔◌, ◌⊎◌, refl, arith, All,
  if◌then◌else◌,
}
use kube_ovn_dra_driver.NicPrepare.{split}
use kube_ovn_dra_driver.NicPrepare.Request.{validate_secondary_provider}
use kube_ovn_dra_driver.Publisher.{Family, Subnet, exhausted, full}
use kube_ovn_dra_driver.Publisher.Counts.{IsCounted, UsedUp, full_iff}
use kube_ovn_dra_driver.Publisher.Device.{
  NameTools, publishable, device, string_attribute, pool, is_ovn_provider,
}
use kube_ovn_dra_driver.Publisher.Device.Pools.{device_read_back, pool_never_overbooks}
use kube_ovn_dra_driver.Publisher.Held.{IpRef, apply_held}
use kube_ovn_dra_driver.Publisher.Held.Recount.{apply_held_recounts}
use kube_ovn_dra_driver.Witnesses.Data.{web_claim}

abbrev used_family : Family
used_family = record { enabled = true; free = 3; held = 1; allocated = 4 }

abbrev pub office : Subnet
office = record {
  name = "sub";
  uid = "s1";
  provider = "sub.default.ovn";
  vpc = "";
  vlan_id = 0;
  provider_network = "";
  v4 = used_family;
  v6 = record { enabled = false; free = 0; held = 0; allocated = 0 };
}

abbrev pub labels : NameTools
labels = record {
  is_dns_label = λ s. true;
  hash = λ s. "0123456789ab";
  dashed = λ s. s;
  trim_right = λ s. s;
}

used_family-IsCounted : IsCounted office.v4
used_family-IsCounted = record { sum_fits = omega arith; allocated_fits = omega arith }

absent-IsCounted : IsCounted office.v6
absent-IsCounted = record { sum_fits = omega arith; allocated_fits = omega arith }

full_iff_example : (full office ≡ true) ↔ (UsedUp office.v4 ⊎ UsedUp office.v6)
full_iff_example = full_iff office used_family-IsCounted absent-IsCounted

office_allowed : publishable office ≡ none
unfolding publishable is_ovn_provider split
office_allowed = refl

device_read_back_example :
    (string_attribute (device labels office true) "nic.kubeovn.io" "subnetName" ≡ office.name)
    × (string_attribute (device labels office true) "nic.kubeovn.io" "provider" ≡ office.provider)
    × (validate_secondary_provider office.provider office.name ≡ none)
device_read_back_example =
    device_read_back labels office true "nic.kubeovn.io" office_allowed (omega arith)

pool_never_overbooks_example :
    ((pool labels office true).devices
      ≡ (if exhausted office then [] else device labels office true ∷ []))
    × All (λ d. d.capacities "ipv4" ≢ some 0) (pool labels office true).devices
pool_never_overbooks_example = pool_never_overbooks labels office "ipv4"

abbrev pod_itself : String → String → List String
pod_itself namespace name = name ∷ []

abbrev web_ip : IpRef
web_ip = record { namespace = "default"; name = "web"; subnet = "sub" }

apply_held_recounts_example :
    apply_held labels "nic.kubeovn.io"
      (web_ip ∷ [])
      pod_itself
      (web_claim ∷ [])
      (apply_held labels "nic.kubeovn.io" [] pod_itself (web_claim ∷ web_claim ∷ []) (office ∷ []))
    ≡ apply_held labels "nic.kubeovn.io" (web_ip ∷ []) pod_itself (web_claim ∷ []) (office ∷ [])
apply_held_recounts_example =
    apply_held_recounts labels "nic.kubeovn.io" pod_itself [] (web_ip ∷ [])
      (web_claim ∷ web_claim ∷ []) (web_claim ∷ []) (office ∷ [])
