-- ===== src/Linux/Ovs.antt =====
-- attachToOVS, detachFromOVS, DetachPodPorts and ovsVsctl of pkg/plumbing/plumbing_linux.go.
pub mod Frames
pub mod AllPorts
use kube_ovn_dra_driver.Prelude.{
  String, ◌<>◌, ◌==◌, Option, none, some, List, [], ◌∷◌, ◌++◌, map, Error, wrap, Result, ok, err,
  not, keep, join_errors,
}
use kube_ovn_dra_driver.Exec.{Exec}
use kube_ovn_dra_driver.Exec.Sealed.{◌>>=◌, ◌>>◌, pure, fail, wrapping}
use kube_ovn_dra_driver.Store.{Spec}
use kube_ovn_dra_driver.NicPrepare.{cut_before}
use kube_ovn_dra_driver.Linux.{Kernel, Texts}
use kube_ovn_dra_driver.Linux.Links.{cleanup_host_veth}

-- strings.Join
unfoldable pub join_with : String → List String → String
join_with sep [] = ""
join_with sep (x ∷ []) = x
join_with sep (x ∷ y ∷ xs) = x <> (sep <> join_with sep (y ∷ xs))

unfoldable pub ip_without_mask : String → String
ip_without_mask cidr = cut_before b'/' cidr

unfoldable pub ips_without_mask : List String → List String
unfolding ip_without_mask
ips_without_mask cidrs = map ip_without_mask (keep (λ cidr. not (cidr == "")) cidrs)

-- `if err != nil { return fmt.Errorf(format + ": %w: %s", …, err, strings.TrimSpace(out)) }`
abbrev pub output_or : Texts → String → List String → String × Option Error → Result String
output_or t f args (out, none) = ok out
output_or t f args (out, some e) = err (wrap f (args ++ t.trim_space out ∷ []) e)

abbrev collect : Result (Unit {0}) → List Error → List Error
collect (ok u) errs = errs
collect (err e) errs = e ∷ errs

abbrev joined_result : List Error → Result (Unit {0})
joined_result errs = elim (join_errors errs) [ none ↦ ok tt | some e ↦ err e ]

abbrev pub find_argv : String → String → List String
find_argv name namespace =
    "--bare"
    ∷ "--columns=name"
    ∷ "find"
    ∷ "interface"
    ∷ "external_ids:kube-ovn-dra-driver=nic"
    ∷ ("external_ids:pod_name=" <> name)
    ∷ ("external_ids:pod_namespace=" <> namespace)
    ∷ []

module _ {W : Type 0} (k : Kernel W) (t : Texts) where
  -- A command, with its output in the error.
  unfoldable pub command : String → List String → String → List String → Exec W String
  command f args name argv w = let (r, w') = k.run name argv w in (output_or t f args r, w')

  unfoldable pub ovs_vsctl : List String → Exec W (Unit {0})
  unfolding command join_with
  ovs_vsctl argv =
      command "ovs-vsctl %s: %w: %s" (join_with " " argv ∷ []) "ovs-vsctl" argv >>= λ _. pure tt

  unfoldable pub attach_to_ovs : String → Spec → Exec W (Unit {0})
  unfolding ips_without_mask ovs_vsctl
  attach_to_ovs host_veth spec = ovs_vsctl (
      "--may-exist"
      ∷ "add-port"
      ∷ "br-int"
      ∷ host_veth
      ∷ "--"
      ∷ "set"
      ∷ "interface"
      ∷ host_veth
      ∷ ("external_ids:iface-id=" <> spec.iface_id)
      ∷ "external_ids:vendor=kube-ovn"
      ∷ "external_ids:kube-ovn-dra-driver=nic"
      ∷ ("external_ids:pod_name=" <> spec.pod_name)
      ∷ ("external_ids:pod_namespace=" <> spec.pod_namespace)
      ∷ ("external_ids:ip=" <> join_with "," (ips_without_mask (spec.ip ∷ spec.extra_ips)))
      ∷ ("external_ids:pod_netns=" <> spec.netns_path)
      ∷ [])

  unfoldable pub detach_from_ovs : String → Spec → Exec W (Unit {0})
  unfolding ovs_vsctl
  detach_from_ovs host_veth spec =
      ovs_vsctl ("--if-exists" ∷ "del-port" ∷ "br-int" ∷ host_veth ∷ [])

  -- One port: the veth is deleted only when the port was.
  unfoldable pub detach_port : String → Exec W (Unit {0})
  unfolding ovs_vsctl
  detach_port name = ovs_vsctl ("--if-exists" ∷ "del-port" ∷ name ∷ []) >> cleanup_host_veth k name

  -- The loop over the ports found, with the errors in order.
  unfoldable pub detach_ports : List String → W → List Error × W
  unfolding detach_port
  detach_ports [] w = ([], w)
  detach_ports (name ∷ names) w =
      let (r, w') = detach_port name w in
      let (errs, w'') = detach_ports names w' in (collect r errs, w'')

  unfoldable pub detach_found : List String → Exec W (Unit {0})
  unfolding detach_ports
  detach_found names w = let (errs, w') = detach_ports names w in (joined_result errs, w')

  unfoldable pub detach_pod_ports : String → String → Exec W (Unit {0})
  unfolding command detach_found
  detach_pod_ports name namespace =
      command "find ovs ports of pod %s/%s: %w: %s" (namespace ∷ name ∷ []) "ovs-vsctl"
        (find_argv name namespace)
      >>= λ out. detach_found (t.fields out)
