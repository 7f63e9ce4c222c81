-- ===== src/Profile/Watch/Ignored.antt =====
-- What WatchDevices of internal/profiles/nic/nic.go does not report does not change what
-- EnumerateDevices finds.
use kube_ovn_dra_driver.Prelude.{
  String, ◌==◌, true, false, Option, some, List, ◌∷◌, ◌++◌, Map, empty_map, map, ◌≡◌, refl, sym, ap,
  inl, inr, arith, Result, ok, Bool-cases, if◌then◌else◌, fun_ext, eq_iff,
}
use kube_ovn_dra_driver.Publisher.Device.{NameTools}
use kube_ovn_dra_driver.Publisher.Parse.{Json, Unstructured, VlanInfo}
use kube_ovn_dra_driver.Profile.{enumerate_items}
use kube_ovn_dra_driver.Profile.Watch.{
  Cluster, Parsers, vlan_info, item_of, enumerated, Equality, updated, reports, reports_node,
}
use kube_ovn_dra_driver.Profile.Watch.Alike.{items-Alike, vlan_info-spec, enumerate_items-Alike}

-- DeepEqual tells apart what is read differently.
pub record IsEquality (q : Equality) : Type 0 where
  pub specs_eq : (a b : Option (Map Json)) → q.specs a b ≡ true → a ≡ b
  pub labels_eq : (a b : Map String) → q.labels a b ≡ true → a ≡ b

-- An update of a Subnet, of a Vlan or of the node that the handlers do not report. An update does not
-- change the name of an object.
pub data Ignored (q : Equality) (w w' : Cluster) : Type 0 where
  subnet_updated :
      (before after : List Unstructured) (o n : Unstructured)
      → w.subnets ≡ before ++ o ∷ after
      → w' ≡ record w { subnets = before ++ n ∷ after }
      → n.name ≡ o.name
      → reports q (updated (some o) (some n)) ≡ false
      → Ignored q w w'
  vlan_updated :
      (name : String) (o n : Unstructured)
      → w.vlans name ≡ ok o
      → w' ≡ record w { vlans = λ k. if k == name then ok n else w.vlans k }
      → reports q (updated (some o) (some n)) ≡ false
      → Ignored q w w'
  node_updated :
      (labels : Map String)
      → w' ≡ record w { labels = labels }
      → reports_node q (some w.labels) (some labels) ≡ false
      → Ignored q w w'

module _ (q : Equality) (laws : IsEquality q) (t : NameTools) (p : Parsers) where
  same_spec : (o n : Unstructured) → reports q (updated (some o) (some n)) ≡ false → n.spec ≡ o.spec
  unfolding reports
  same_spec o n h = sym (laws.specs_eq o.spec n.spec (ground (arith, h)))

  same_labels : (a b : Map String) → reports_node q (some a) (some b) ≡ false → a ≡ b
  unfolding reports_node
  same_labels a b h = laws.labels_eq a b (ground (arith, h))

  -- What the watch does not report does not change what is enumerated: an update of a Subnet or a Vlan
  -- with the same spec, such as of the counts that kube-ovn writes on every allocation, or of the node
  -- with the same labels leaves the devices of EnumerateDevices, and its errors, as they are.
  pub unreported_changes_nothing :
      (w w' : Cluster) → Ignored q w w' → enumerated t p w' ≡ enumerated t p w
  unfolding enumerated
  unreported_changes_nothing w w' (subnet_updated before after o n e e' named h) =
      let vlans = λ (name : String). vlan_info p (w.vlans name) in
      rw (e', e)
        (sym (
          enumerate_items-Alike t w.labels (map (item_of p vlans) (before ++ o ∷ after))
            (map (item_of p vlans) (before ++ n ∷ after)) empty_map empty_map
            (items-Alike p vlans before after o n named (same_spec o n h))))
  unreported_changes_nothing w w' (vlan_updated name o n e e' h) = rw e' (
      ap
        (λ (vlans : String → Result VlanInfo).
          (enumerate_items t w.labels (map (item_of p vlans) w.subnets) empty_map).devices)
        (fun_ext λ k. vlan_of k))
    where
      vlan_of :
          (k : String)
          → vlan_info p (if k == name then ok n else w.vlans k) ≡ vlan_info p (w.vlans k)
      vlan_of k = elim (Bool-cases (k == name)) [
        | inr f ↦ rw f refl
        | inl y ↦
            let same : w.vlans k ≡ ok o = rw ((eq_iff k name).0 y) e in
            rw (y, same) (vlan_info-spec p o n (same_spec o n h))
      ]
  unreported_changes_nothing w w' (node_updated labels e h) = cc (e, same_labels w.labels labels h)
