-- ===== src/Linux/Ovs/Frames.antt =====
-- The commands on the OVS database keep what the kernel's calls keep.
use kube_ovn_dra_driver.Prelude.{String, List, [], ◌∷◌}
use kube_ovn_dra_driver.Exec.Frames.{Frames}
use kube_ovn_dra_driver.Exec.Sealed.{frames_rules}
use kube_ovn_dra_driver.Store.{Spec}
use kube_ovn_dra_driver.Linux.{Kernel, Texts}
use kube_ovn_dra_driver.Linux.Kept.{Kept}
use kube_ovn_dra_driver.Linux.Links.Frames.{cleanup_host_veth-Frames}
use kube_ovn_dra_driver.Linux.Ovs.{
  command, ovs_vsctl, attach_to_ovs, detach_from_ovs, detach_port, detach_ports, detach_found,
  detach_pod_ports,
}

module _ {W : Type 0} {R : W → W → Type 0} {k : Kernel W} (kept : Kept R k) (t : Texts) where
  pub command-Frames :
      (f : String) (args : List String) (name : String) (argv : List String)
      → Frames R (command k t f args name argv)
  unfolding command
  command-Frames f args name argv = record { at = λ w. kept.plain.runs name argv w }

  pub ovs_vsctl-Frames : (argv : List String) → Frames R (ovs_vsctl k t argv)
  unfolding ovs_vsctl
  ovs_vsctl-Frames argv = search (frames_rules, kept.pre, command-Frames)

  pub attach_to_ovs-Frames : (host : String) (spec : Spec) → Frames R (attach_to_ovs k t host spec)
  unfolding attach_to_ovs
  attach_to_ovs-Frames host spec = ovs_vsctl-Frames _

  pub detach_from_ovs-Frames :
      (host : String) (spec : Spec) → Frames R (detach_from_ovs k t host spec)
  unfolding detach_from_ovs
  detach_from_ovs-Frames host spec = ovs_vsctl-Frames _

  detach_port-Frames : (name : String) → Frames R (detach_port k t name)
  unfolding detach_port
  detach_port-Frames name =
      search (frames_rules, kept.pre, ovs_vsctl-Frames, cleanup_host_veth-Frames kept)

  detach_ports_kept : (names : List String) (w : W) → R w (detach_ports k t names w).1
  unfolding detach_ports
  detach_ports_kept [] w = kept.pre.refl_at w
  detach_ports_kept (name ∷ names) w =
      kept.pre.trans_at w _ _ ((detach_port-Frames name).at w)
        (detach_ports_kept names (detach_port k t name w).1)

  detach_found-Frames : (names : List String) → Frames R (detach_found k t names)
  unfolding detach_found
  detach_found-Frames names = record { at = detach_ports_kept names }

  pub detach_pod_ports-Frames :
      (name namespace : String) → Frames R (detach_pod_ports k t name namespace)
  unfolding detach_pod_ports
  detach_pod_ports-Frames name namespace =
      search (frames_rules, kept.pre, command-Frames, detach_found-Frames)
