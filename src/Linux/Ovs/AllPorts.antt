-- ===== src/Linux/Ovs/AllPorts.antt =====
-- DetachPodPorts of pkg/plumbing/plumbing_linux.go: which commands it runs, whatever they answer.
use mathlib.Core.List.{append_assoc, append-nil}
use kube_ovn_dra_driver.Prelude.{
  String, Bool, true, false, Option, none, some, List, [], ◌∷◌, ◌++◌, ◌≡◌, refl, sym, ap, ◌∙◌, map,
  Error, Result, ok, err, keep, keep-append,
}
use kube_ovn_dra_driver.Exec.Sealed.{◌>>=◌, ◌>>◌, pure, lift, wrapping, attempt, value}
use kube_ovn_dra_driver.Linux.{Texts, Link, thread, delete}
use kube_ovn_dra_driver.Linux.Trace.{Call, looks_up, requests, runs, Oracle, recorder}
use kube_ovn_dra_driver.Linux.Links.{cleanup_host_veth, delete_found}
use kube_ovn_dra_driver.Linux.Ovs.{
  command, output_or, ovs_vsctl, detach_port, detach_ports, detach_found, detach_pod_ports,
  find_argv,
}

abbrev pub is_command : Call → Bool
is_command (runs name argv) = true
is_command _ = false

abbrev pub commands : List Call → List Call
commands w = keep is_command w

pub del_port : String → Call
del_port name = runs "ovs-vsctl" ("--if-exists" ∷ "del-port" ∷ name ∷ [])

pub find_call : String → String → Call
find_call name namespace = runs "ovs-vsctl" (find_argv name namespace)

-- The ports that the answer of `ovs-vsctl find` names, none if it failed.
pub ports_found : Texts → String × Option Error → List String
ports_found t (out, none) = t.fields out
ports_found t (out, some e) = []

module _ (o : Oracle) (t : Texts) where
  no_command :
      (w : List Call) (c : Call) → is_command c ≡ false → commands (w ++ c ∷ []) ≡ commands w
  no_command w c h = keep-append is_command w (c ∷ []) ∙ (rw h (append-nil (commands w)))

  one_command :
      (w : List Call) (c : Call)
      → is_command c ≡ true
      → commands (w ++ c ∷ []) ≡ commands w ++ c ∷ []
  one_command w c h = keep-append is_command w (c ∷ []) ∙ (rw h refl)

  commands-delete_found :
      (host : String) (l : Option Link) (w : List Call)
      → commands (delete_found (recorder o) host l w).1 ≡ commands w
  unfolding delete_found pure wrapping
  commands-delete_found host none w = refl
  commands-delete_found host (some l) w = no_command w (requests thread (delete l)) refl

  commands-cleanup_host_veth :
      (host : String) (w : List Call)
      → commands (cleanup_host_veth (recorder o) host w).1 ≡ commands w
  unfolding cleanup_host_veth attempt ◌>>=◌
  commands-cleanup_host_veth host w =
      commands-delete_found host (value (o.link w (looks_up thread host))) _
      ∙ no_command w (looks_up thread host) refl

  after_del :
      (name : String) (w : List Call) (r : Result String)
      → let (r', w') =
          ((lift r >>= λ out. pure tt) >> cleanup_host_veth (recorder o) name)
            (w ++ del_port name ∷ []) in
        commands w' ≡ commands w ++ del_port name ∷ []
  unfolding ◌>>=◌ pure lift del_port
  after_del name w (ok out) = commands-cleanup_host_veth name _ ∙ one_command w (del_port name) refl
  after_del name w (err e) = one_command w (del_port name) refl

  commands-detach_port :
      (name : String) (w : List Call)
      → commands (detach_port (recorder o) t name w).1 ≡ commands w ++ del_port name ∷ []
  unfolding detach_port ovs_vsctl command ◌>>=◌ lift del_port
  commands-detach_port name w = after_del name w _

  commands-detach_ports :
      (names : List String) (w : List Call)
      → commands (detach_ports (recorder o) t names w).1 ≡ commands w ++ map del_port names
  unfolding detach_ports
  commands-detach_ports [] w = sym (append-nil (commands w))
  commands-detach_ports (name ∷ names) w =
      commands-detach_ports names (detach_port (recorder o) t name w).1
      ∙ ap (λ l. l ++ map del_port names) (commands-detach_port name w)
      ∙ append_assoc (commands w) (del_port name ∷ []) (map del_port names)

  found_all :
      (args : List String) (r : String × Option Error) (find : Call) (w : List Call)
      → is_command find ≡ true
      → let (r', w') =
          (lift (output_or t "find ovs ports of pod %s/%s: %w: %s" args r) >>= λ out.
          detach_found (recorder o) t (t.fields out))
            (w ++ find ∷ []) in
        commands w' ≡ commands w ++ find ∷ map del_port (ports_found t r)
  unfolding lift detach_found ◌>>=◌ ports_found
  found_all args (out, none) find w h =
      commands-detach_ports (t.fields out) (w ++ find ∷ [])
      ∙ ap (λ l. l ++ map del_port (t.fields out)) (one_command w find h)
      ∙ append_assoc (commands w) (find ∷ []) _
  found_all args (out, some e) find w h = one_command w find h

  -- DetachPodPorts runs one command to find the ports of the pod, then one command to delete each
  -- port that it found, in order and also after ports that failed to go; a find that fails deletes
  -- none. It runs no other command.
  pub detach_pod_ports_tries_all :
      (name namespace : String) (w : List Call)
      → let find = find_call name namespace in
        commands (detach_pod_ports (recorder o) t name namespace w).1
        ≡ commands w ++ find ∷ map del_port (ports_found t (o.output w find))
  unfolding detach_pod_ports command detach_found ◌>>=◌ find_call lift
  detach_pod_ports_tries_all name namespace w =
      found_all (namespace ∷ name ∷ []) (o.output w (find_call name namespace))
        (find_call name namespace) w refl
