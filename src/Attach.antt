-- ===== src/Attach.antt =====
-- Attach, Detach and Validate of pkg/plumbing/plumbing.go: the steps that plug one NIC. The steps
-- on links and on OVS are the operations of `Datapath`, over a host state `W`.
pub mod Steps
pub mod Kept
pub mod Routes
use kube_ovn_dra_driver.Prelude.{
  ℕ, zero, String, ◌<>◌, ◌==◌, Bool, Option, none, some, List, [], ◌∷◌, Error, message, Result, ok,
  err, if◌then◌else◌, nat_eq,
}
use kube_ovn_dra_driver.Store.{Spec}
use kube_ovn_dra_driver.Sandbox.{Attacher}

-- Spec.Validate: nil, or the first field that is missing.
unfoldable pub validate : Spec → Option Error
validate s =
    if s.netns_path == ""
    then some (message "plumbing: Spec.NetnsPath is empty (sandbox not resolved yet)" [])
    else if s.iface_name == ""
    then some (message "plumbing: Spec.IfaceName is empty" [])
    else if s.ip == ""
    then some (message "plumbing: Spec.IP is empty" [])
    else if s.container_id == ""
    then some (message "plumbing: Spec.ContainerID is empty (cannot derive veth names)" [])
    else if s.iface_id == ""
    then some (message "plumbing: Spec.IfaceID is empty, OVN would not bind the port" [])
    else none

-- What the code takes of crypto/sha256: the first four bytes of the sum, in hexadecimal.
abbrev pub ShortHash : Type 0
ShortHash = String → String

unfoldable pub short_hash_name : ShortHash → String → String → String
short_hash_name hash prefix key = prefix <> hash key

unfoldable pub veth_names : ShortHash → Spec → Result (String × String)
unfolding short_hash_name
veth_names hash s =
    if s.container_id == ""
    then err (message "plumbing: Spec.ContainerID is empty (cannot derive veth names)" [])
    else (let key = s.container_id <> ("/" <> s.iface_name) in
        ok (short_hash_name hash "vh" key, short_hash_name hash "vc" key))

unfoldable pub bridge_name_for : ShortHash → String → String
bridge_name_for hash iface = short_hash_name hash "kvb" iface

unfoldable pub veth_rename_for : ShortHash → String → String
veth_rename_for hash iface = short_hash_name hash "kvv" iface

-- The helpers that plumbing_linux.go implements; each returns nil or an error.
pub record Datapath {ℓ} (W : Type ℓ) : Type ℓ where
  pub primary_mtu : String → W → ℕ × W
  pub create_veth_pair : String → String → ℕ → W → Option Error × W
  pub move_into_netns : String → String → String → W → Option Error × W
  pub configure_pod_iface : Spec → W → Option Error × W
  pub attach_to_ovs : String → Spec → W → Option Error × W
  pub wire_vmi_bridge : Spec → W → Option Error × W
  pub unwire_vmi_bridge : Spec → W → Option Error × W
  pub detach_from_ovs : String → Spec → W → Option Error × W
  pub cleanup_host_veth : String → W → Option Error × W
  pub detach_pod_ports : String → String → W → Option Error × W

module _ {ℓ} {W : Type ℓ} (hash : ShortHash) (d : Datapath W) where
  -- `if err := step; err != nil { undo; return err }`, with the rest of the function.
  abbrev pub or_else : Option Error × W → (W → W) → (W → Option Error × W) → Option Error × W
  or_else (none, w) undo rest = rest w
  or_else (some e, w) undo rest = (some e, undo w)

  abbrev pub cleanup : String → W → W
  cleanup host w = (d.cleanup_host_veth host w).1

  with_mtu : Spec → W → Spec × W
  with_mtu s w =
      if nat_eq s.mtu 0
      then (let (mtu, w') = d.primary_mtu s.netns_path w in (record s { mtu = mtu }, w'))
      else (s, w)

  wire : String → Spec → W → Option Error × W
  wire host s w =
      if s.kube_virt_vmi
      then or_else (d.wire_vmi_bridge s w) (λ w'. cleanup host (d.detach_from_ovs host s w').1)
          (λ w'. (none, w'))
      else (none, w)

  plug : String → String → Spec → W → Option Error × W
  unfolding wire
  plug host pod s w =
      or_else (d.create_veth_pair host pod s.mtu w) (λ w'. w')
        λ w₁. or_else (d.move_into_netns pod s.netns_path s.iface_name w₁) (cleanup host) λ w₂.
          or_else (d.configure_pod_iface s w₂) (cleanup host)
            λ w₃. or_else (d.attach_to_ovs host s w₃) (cleanup host) (wire host s)

  unfoldable pub attach : Spec → W → Option Error × W
  unfolding with_mtu plug
  attach s w = elim (validate s) [
    | some e ↦ (some e, w)
    | none ↦ elim (veth_names hash s) [
      | err e ↦ (some e, w)
      | ok (host, pod) ↦ (let (s', w') = with_mtu s w in plug host pod s' w')
    ]
  ]

  unplug : Spec → W → Option Error × W
  unplug s w = elim (veth_names hash s) [
    | err e ↦ (some e, w)
    | ok (host, pod) ↦
        or_else (d.detach_from_ovs host s w) (λ w'. w') (λ w'. d.cleanup_host_veth host w')
  ]

  unfoldable pub detach : Spec → W → Option Error × W
  unfolding unplug
  detach s w =
      if s.kube_virt_vmi
      then or_else (d.unwire_vmi_bridge s w) (λ w'. w') (unplug s)
      else unplug s w

  -- NewOVSAttacher: the attacher that the sandbox hooks call.
  abbrev pub ovs_attacher : Attacher W
  ovs_attacher = record { attach = attach; detach = detach; detach_pod_ports = d.detach_pod_ports }
