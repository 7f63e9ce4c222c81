-- ===== src/Profile/Agreement.antt =====
-- The two publish modes: EnumerateDevices of internal/profiles/nic/nic.go on a node, against the
-- pools of internal/publisher/pools.go and their node selectors.
use kube_ovn_dra_driver.Prelude.{
  String, ◌==◌, Bool, true, false, Option, none, some, List, [], ◌∷◌, ◌≡◌, inl, inr, arith, Map,
  get_text, map, keep, Result, ok, err, ◌>>=◌, >>=-eq-ok, ok-injective, Bool-cases, Option-cases,
  update, sym,
}
use kube_ovn_dra_driver.Publisher.{Subnet}
use kube_ovn_dra_driver.Publisher.Device.{Device, NameTools, publishable, device, Pool, pool}
use kube_ovn_dra_driver.Profile.{enumerate_items, is_ready}

-- The Subnets that were parsed, in order.
pub parsed : List (Option (Result Subnet)) → List Subnet
parsed [] = []
parsed (some (ok s) ∷ is) = s ∷ parsed is
parsed (_ ∷ is) = parsed is

-- Whether the pool can be used on a node with these labels.
abbrev pub selects : Map String → Pool → Bool
selects labels p = elim p.node_label [
  | none ↦ true
  | some label ↦ get_text (labels label) == "true"
]

abbrev pub is_published : NameTools → Map String → Subnet → Bool
is_published t labels s = elim (publishable s) [
  | some e ↦ false
  | none ↦ selects labels (pool t s false)
]

is_ready-selects :
    (t : NameTools) (labels : Map String) (s : Subnet)
    → selects labels (pool t s false) ≡ is_ready labels s
unfolding pool
is_ready-selects t labels s = ground arith

-- The publish modes agree: where EnumerateDevices succeeds, a node publishes, in order, the devices
-- of exactly the publishable Subnets whose pool in the central mode the node is selected for.
pub enumerate_items_agrees :
    (t : NameTools) (labels : Map String) (items : List (Option (Result Subnet)))
    (subnets : Map String) (devices : List Device)
    → (enumerate_items t labels items subnets).devices ≡ ok devices
    → devices ≡ map (λ s. device t s false) (keep (is_published t labels) (parsed items))
unfolding enumerate_items parsed
enumerate_items_agrees t labels [] subnets devices h = sym (ok-injective h)
enumerate_items_agrees t labels (none ∷ is) subnets devices h =
    enumerate_items_agrees t labels is subnets devices h
enumerate_items_agrees t labels (some (err e) ∷ is) subnets devices h = absurd (cc h)
enumerate_items_agrees t labels (some (ok s) ∷ is) subnets devices h =
    elim (Option-cases (publishable s)) [
      | inr (e, p) ↦ ground (arith, p, enumerate_items_agrees t labels is subnets devices, h)
      | inl p ↦ elim (Bool-cases (is_ready labels s)) [
        | inr f ↦ ground (
          arith,
          p,
          f,
          is_ready-selects t labels s,
          enumerate_items_agrees t labels is subnets devices,
          h,
        )
        | inl r ↦
            let d = device t s false in
            let later = enumerate_items t labels is (update subnets d.name (some s.name)) in
            let added : (later.devices >>= λ ds. ok (d ∷ ds)) ≡ ok devices =
              ground (arith, h, p, r) in
            let (rest, more, same) = >>=-eq-ok later.devices (λ ds. ok (d ∷ ds)) added in
            ground (
              arith,
              p,
              r,
              is_ready-selects t labels s,
              same,
              enumerate_items_agrees t labels is (update subnets d.name (some s.name)) rest more,
            )
      ]
    ]
