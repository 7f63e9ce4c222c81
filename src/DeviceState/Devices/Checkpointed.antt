-- ===== src/DeviceState/Devices/Checkpointed.antt =====
-- What the steps of prepareDevices in cmd/kube-ovn-dra-kubeletplugin/state.go leave as it was: the
-- checkpoint, and the NIC store but for the NICs of the devices that it returns.
use kube_ovn_dra_driver.Prelude.{
  ℕ, String, ◌==◌, Bool, Option, none, some, List, [], ◌∷◌, ◌≡◌, refl, ◌∙◌, inl, inr, Map, map,
  Result, ok, err, All, Bool-cases, Option-cases, Result-cases,
}
use kube_ovn_dra_driver.Exec.{Exec, lift, wrapping, ◌>>=◌}
use kube_ovn_dra_driver.Exec.Frames.{
  IsPreorder, Frames, Frames-pure, Frames-lift, Frames-wrapping, Frames-bind,
}
use kube_ovn_dra_driver.Store.{Spec}
use kube_ovn_dra_driver.Claim.{DeviceResult, Allocation, ResourceClaim}
use kube_ovn_dra_driver.Config.{OpaqueDeviceConfig, Group, group_result}
use kube_ovn_dra_driver.NicPrepare.Request.{NicDeviceConfig, request_ipam}
use kube_ovn_dra_driver.Cdi.{PreparedDevice}
use kube_ovn_dra_driver.DeviceState.Host.{Settings, Host, IsHost, State}
use kube_ovn_dra_driver.DeviceState.Parts.{
  PrepItem, check_interface_names, or_zero, add_nics, nic_spec_from_config,
}
use kube_ovn_dra_driver.DeviceState.Devices.{
  nic_for, annotate_nic, resolve_dhcp, resolve_mtu, Method, read, check_allocatable, group_results,
  results_by_config, annotate_mac, resolve_nic, resolve_all, resolve_nics, prepared_device, nics_of,
  build_devices, prepare_devices,
}

-- The NIC of a device, if it has one, is marked with the claim.
abbrev pub IsOf : String → Option Spec → Type 0
IsOf uid none = Unit {0}
IsOf uid (some s) = s.claim_uid ≡ uid

abbrev pub OfClaim : String → List PreparedDevice → Type 0
OfClaim uid = All (λ d. IsOf uid d.nic)

nic_for-IsOf : (uid : String) (o : Option NicDeviceConfig) → IsOf uid (nic_for uid o)
unfolding nic_spec_from_config
nic_for-IsOf uid none = tt
nic_for-IsOf uid (some c) = refl

module _ {W : Type 0} (s : Settings) (host : Host W) (laws : IsHost host) where
  -- The checkpoint and the NIC store are as they were.
  abbrev pub Kept : State W → State W → Type 0
  Kept st st' =
      (host.get_checkpoint st'.world ≡ host.get_checkpoint st.world)
      × (st'.nic_store ≡ st.nic_store)

  Kept-IsPreorder : IsPreorder Kept
  Kept-IsPreorder = record {
    refl_at = λ st. (refl, refl);
    trans_at = λ st t u (a, b) (c, d). (c ∙ a, d ∙ b);
  }

  read-Kept : {A : Type 0} (f : W → Result A) → Frames Kept (read f)
  read-Kept f = record { at = λ st. (refl, refl) }

  -- A read with its error wrapped, then the rest.
  read_then-Kept :
      {A B : Type 0} (f : String) (args : List String) (g : W → Result A) (k : A → Method W B)
      → ((a : A) → Frames Kept (k a))
      → Frames Kept (wrapping f args (read g) >>= k)
  read_then-Kept f args g k kept =
      Frames-bind Kept-IsPreorder (wrapping f args (read g)) k
        (Frames-wrapping Kept-IsPreorder f args (read g) (read-Kept g)) kept

  check_allocatable-Kept : (device : String) → Frames Kept (check_allocatable s host device)
  unfolding check_allocatable
  check_allocatable-Kept device = record {
    at = λ st. elim (Option-cases (st.allocatable device)) [
      | inr (d, e) ↦ rw (e, check_allocatable) (refl, refl)
      | inl e ↦ elim (Result-cases (host.enumerate st.world)) [
        | inl (r, f) ↦ rw (e, f, check_allocatable) (refl, refl)
        | inr (x, f) ↦ rw (e, f, check_allocatable) (refl, refl)
      ]
    ];
  }

  group_results-Kept :
      (configs : List OpaqueDeviceConfig) (rs : List DeviceResult) (groups : List Group)
      → Frames Kept (group_results s host configs rs groups)
  unfolding group_results
  group_results-Kept configs [] groups = record { at = λ st. (refl, refl) }
  group_results-Kept configs (r ∷ rs) groups = elim (Bool-cases (r.driver == s.driver_name)) [
    | inr e ↦ record {
      at = λ st. rw (e, group_results) ((group_results-Kept configs rs groups).at st);
    }
    | inl e ↦ record {
      at = λ st.
          rw (e, group_results)
            ((Frames-bind Kept-IsPreorder (check_allocatable s host r.device)
                (λ _.
                  group_results s host configs rs (group_result s.base_request configs r groups))
                (check_allocatable-Kept r.device)
                (λ _.
                  group_results-Kept configs rs (group_result s.base_request configs r groups))).at
              st);
    }
  ]

  results_by_config-Kept : (a : Allocation) → Frames Kept (results_by_config s host a)
  unfolding results_by_config
  results_by_config-Kept a =
      Frames-bind Kept-IsPreorder _ _
        (Frames-wrapping Kept-IsPreorder _ _ _ (Frames-lift Kept-IsPreorder _))
        (λ configs. group_results-Kept _ a.results [])

  annotate_mac-Kept : (c : NicDeviceConfig) → Frames Kept (annotate_mac s host c)
  unfolding annotate_mac
  annotate_mac-Kept c = record {
    at = λ st. elim (Option-cases host.annotate_vmi) [
      | inl e ↦ rw (e, annotate_mac) (refl, refl)
      | inr (patch, e) ↦ elim (Bool-cases (c.vm_name == "")) [
        | inl f ↦ rw (e, f, annotate_mac) (refl, refl)
        | inr f ↦ rw (e, f, annotate_mac) (laws.get-annotate_vmi patch _ _ _ _ st.world e, refl)
      ]
    ];
  }

  annotate_nic-Kept :
      (c : NicDeviceConfig) (mtu : ℕ) (dhcp : Bool) → Frames Kept (annotate_nic s host c mtu dhcp)
  unfolding annotate_nic
  annotate_nic-Kept c mtu dhcp =
      Frames-bind Kept-IsPreorder (annotate_mac s host c) _ (annotate_mac-Kept c)
        (λ _. Frames-pure Kept-IsPreorder _)

  resolve_dhcp-Kept :
      (it : PrepItem) (c : NicDeviceConfig) (mtu : ℕ) → Frames Kept (resolve_dhcp s host it c mtu)
  unfolding resolve_dhcp
  resolve_dhcp-Kept it c mtu =
      read_then-Kept "DHCP of NIC %s" (it.iface_name ∷ []) (host.subnet_ovn_dhcp c.subnet_name)
        (annotate_nic s host c mtu) (annotate_nic-Kept c mtu)

  resolve_mtu-Kept : (it : PrepItem) (c : NicDeviceConfig) → Frames Kept (resolve_mtu s host it c)
  unfolding resolve_mtu
  resolve_mtu-Kept it c =
      read_then-Kept "MTU of NIC %s" (it.iface_name ∷ []) (host.subnet_mtu c.subnet_name)
        (resolve_dhcp s host it c) (resolve_dhcp-Kept it c)

  resolve_nic-Kept :
      (claim : ResourceClaim) (it : PrepItem) → Frames Kept (resolve_nic s host claim it)
  unfolding resolve_nic
  resolve_nic-Kept claim it = record {
    at = λ st.
        let k =
          read_then-Kept "NIC IPAM for device %s" (it.result.device ∷ [])
            (λ w.
              request_ipam (host.cluster w) claim it.result
                (or_zero (st.allocatable it.result.device)) it.iface_name s.node_name)
            (resolve_mtu s host it) (resolve_mtu-Kept it) in
        k.at st;
  }

  resolve_all-Kept :
      (claim : ResourceClaim) (items : List PrepItem) (st : State W)
      → Kept st (resolve_all s host claim items st).1
  unfolding resolve_all
  resolve_all-Kept claim [] st = (refl, refl)
  resolve_all-Kept claim (it ∷ is) st =
      let (r, st') = resolve_nic s host claim it st in
      Kept-IsPreorder.trans_at st st' (resolve_all s host claim is st').1
        ((resolve_nic-Kept claim it).at st) (resolve_all-Kept claim is st')

  nics_of-Kept :
      (claim : ResourceClaim) (items : List PrepItem) → Frames Kept (nics_of s host claim items)
  unfolding nics_of resolve_nics
  nics_of-Kept claim items = record {
    at = λ st. elim (Bool-cases s.is_nic) [
      | inr e ↦ rw (e, nics_of) (refl, refl)
      | inl e ↦
          elim (Option-cases (
            check_interface_names st.nic_store claim
              (map (λ (i : PrepItem). i.iface_name) items))) [
                | inr (x, f) ↦ rw (e, f, nics_of) (refl, refl)
                | inl f ↦ rw (e, f, nics_of) (resolve_all-Kept claim items st)
              ]
    ];
  }

  built-OfClaim :
      (claim : ResourceClaim) (edits : Map (List String))
      (pairs : List (PrepItem × Option NicDeviceConfig))
      → OfClaim claim.uid (map (prepared_device s host claim edits) pairs)
  unfolding prepared_device
  built-OfClaim claim edits [] = tt
  built-OfClaim claim edits ((it, c) ∷ ps) =
      (nic_for-IsOf claim.uid c, built-OfClaim claim edits ps)

  -- What prepareDevices returns and leaves: an error, or the devices with their NICs in the store.
  abbrev pub Prepared : String → State W → Result (List PreparedDevice) × State W → Type 0
  Prepared uid st (err e, st') = Kept st st'
  Prepared uid st (ok ds, st') =
      (host.get_checkpoint st'.world ≡ host.get_checkpoint st.world)
      × (st'.nic_store ≡ add_nics ds st.nic_store)
      × OfClaim uid ds

  bind-Prepared :
      {A : Type 0} (uid : String) (m : Exec (State W) A) (f : A → Method W (List PreparedDevice))
      → Frames Kept m
      → ((a : A) (st : State W) → Prepared uid st (f a st))
      → (st : State W) → Prepared uid st ((m >>= f) st)
  bind-Prepared {A = A} uid m f km kf st = go (m st) (km.at st)
    where
      go : (r : Result A × State W) → Kept st r.1 → Prepared uid st ((lift r.0 >>= f) r.1)
      go (err e, t) k = k
      go (ok a, t) (d, n) = after (f a t) (kf a t)
        where
          after :
              (q : Result (List PreparedDevice) × State W) → Prepared uid t q → Prepared uid st q
          after (err e, u) (d', n') = (d' ∙ d, n' ∙ n)
          after (ok ds, u) (d', n', o) = (d' ∙ d, rw (n', n) refl, o)

  pub prepare_devices-Prepared :
      (claim : ResourceClaim) (st : State W)
      → Prepared claim.uid st (prepare_devices s host claim st)
  unfolding prepare_devices build_devices
  prepare_devices-Prepared claim st = elim (Option-cases claim.allocation) [
    | inl e ↦ rw (e, prepare_devices) (refl, refl)
    | inr (a, e) ↦
        rw (e, prepare_devices)
          (bind-Prepared claim.uid (results_by_config s host a) _ (results_by_config-Kept a)
            (λ groups. bind-Prepared claim.uid _ _ (Frames-lift Kept-IsPreorder _) (λ edits.
              bind-Prepared claim.uid (nics_of s host claim _) _ (nics_of-Kept claim _)
                (λ nics st. (refl, refl, built-OfClaim claim edits _))))
            st)
  ]
