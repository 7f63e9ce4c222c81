-- ===== src/Plugin/System/Attached.antt =====
-- A pod does not start without the NICs of its prepared claims: Prepare of
-- cmd/kube-ovn-dra-kubeletplugin/state.go against RunPodSandbox of nri.go.
use mathlib.Core.List.{map-append, append-nil, append_assoc}
use kube_ovn_dra_driver.Prelude.{
  String, ◌==◌, ◌&&◌, Bool, false, Option, none, some, List, [], ◌∷◌, ◌++◌, map, ◌≡◌, ◌≢◌, refl,
  sym, ap, ◌∙◌, inl, inr, arith, get_text, Error, ok, Bool-cases, eq_iff, ok-injective, join_errors,
  Option-cases,
}
use kube_ovn_dra_driver.Store.{mark_attached, NicStore, Spec, specs}
use kube_ovn_dra_driver.Store.Lookup.{find, find_nic}
use kube_ovn_dra_driver.Sandbox.{
  fill, sandbox_specs, attach_all, roll_back, on_run_pod_sandbox, returned,
}
use kube_ovn_dra_driver.Sandbox.Rollback.{
  Call, attaches, recording, on_run_pod_sandbox_all_or_nothing,
}
use kube_ovn_dra_driver.Claim.{ResourceClaim}
use kube_ovn_dra_driver.Cdi.{ApiDevice}
use kube_ovn_dra_driver.DeviceState.Host.{
  PreparedClaims, Settings, Host, IsHost, State, lookup_claim,
}
use kube_ovn_dra_driver.DeviceState.Actions.{prepare}
use kube_ovn_dra_driver.DeviceState.Actions.Recorded.{latest, recorded, IsKept}
use kube_ovn_dra_driver.DeviceState.Actions.Holds.{IsAtomic}
use kube_ovn_dra_driver.DeviceState.Start.{Setup}
use kube_ovn_dra_driver.DeviceState.Start.Opened.{IsSetup}
use kube_ovn_dra_driver.Plugin.Runtime.{
  PodSandbox, NriPlugin, network_namespace_path, run_pod_sandbox,
}
use kube_ovn_dra_driver.Plugin.System.{System, on_store, Runs}
use kube_ovn_dra_driver.Plugin.System.Prepared.{prepared-Holds, Runs-Holds, held_found}

-- What the code finds among the NICs of a pod stands there.
find-split :
    (claim iface : String) (xs : List Spec) (n : Spec)
    → find claim iface xs ≡ some n
    → (before : List Spec) × (after : List Spec) × (xs ≡ before ++ n ∷ after)
unfolding find
find-split claim iface [] n h = cc h
find-split claim iface (x ∷ xs) n h =
    elim (Bool-cases (x.claim_uid == claim && x.iface_name == iface)) [
      | inl t ↦ ([], xs, ground (arith, h, t))
      | inr f ↦
          let (before, after, e) = find-split claim iface xs n (ground (arith, h, f)) in
          (x ∷ before, after, ap (λ l. x ∷ l) e)
    ]

no_errors : (es : List Error) → join_errors es ≡ none → es ≡ []
no_errors [] h = refl
no_errors (e ∷ es) h = cc h

-- The Spec that a hook makes of a NIC of the store for a sandbox.
abbrev pub in_sandbox : PodSandbox → Spec → Spec
in_sandbox sb =
    fill sb.id (network_namespace_path sb) (get_text (sb.labels "kubevirt.io") == "virt-launcher")

module _ (answer : List Call → Call → Option Error) where
  run_on_netns :
      (sb : PodSandbox) (p : NriPlugin (List Call))
      → network_namespace_path sb == "" ≡ false
      → (run_pod_sandbox (recording answer) sb p).0
        ≡ returned (
            on_run_pod_sandbox
              (recording answer)
              sb.uid
              sb.id
              (network_namespace_path sb)
              sb.labels
              p.store
              p.host)
  unfolding run_pod_sandbox
  run_on_netns sb p f = rw (f, run_pod_sandbox) refl

  -- RunPodSandbox that returns nil attached every NIC that the store has for the pod.
  run_attaches :
      (sb : PodSandbox) (p : NriPlugin (List Call))
      → network_namespace_path sb ≢ ""
      → (run_pod_sandbox (recording answer) sb p).0 ≡ none
      → (run_pod_sandbox (recording answer) sb p).1.host
        ≡ p.host ++ map attaches (map (in_sandbox sb) (specs p.store sb.uid))
  unfolding run_pod_sandbox sandbox_specs
  run_attaches sb p netns h =
      let path = network_namespace_path sb in
      let f : path == "" ≡ false = ground (arith, netns, eq_iff path "") in
      let r = on_run_pod_sandbox (recording answer) sb.uid sb.id path sb.labels p.store p.host in
      let quiet : returned r ≡ none = rw⁻¹ (run_on_netns sb p f) h in
      rw (f, run_pod_sandbox)
        (elim (on_run_pod_sandbox_all_or_nothing answer sb.uid sb.id path sb.labels p.store
          p.host) [
            | inl (_, c, _, _) ↦ c
            | inr (_, _, _, e, _, _, _, _, _, _) ↦ absurd (e (no_errors r.errors quiet))
          ])

  -- Where attaching NICs in turn gives no error, each attach was answered without one.
  attach_all-answer :
      (pod : String) (before after : List Spec) (n : Spec) (p : NicStore) (w : List Call)
      → (attach_all (recording answer) pod (before ++ n ∷ after) p w).errors ≡ []
      → answer (w ++ map attaches before) (attaches n) ≡ none
  unfolding attach_all roll_back
  attach_all-answer pod [] after n p w h = elim (Option-cases (answer w (attaches n))) [
    | inl e ↦ rw (append-nil w) e
    | inr (x, e) ↦ absurd (ground (arith, h, e))
  ]
  attach_all-answer pod (x ∷ before) after n p w h = elim (Option-cases (answer w (attaches x))) [
    | inl e ↦ rw⁻¹ (append_assoc w (attaches x ∷ []) (map attaches before)) (
        attach_all-answer pod before after n (mark_attached p pod x) (w ++ attaches x ∷ [])
          (ground (arith, h, e)))
    | inr (y, e) ↦ absurd (ground (arith, h, e))
  ]

  run_answer :
      (sb : PodSandbox) (p : NriPlugin (List Call)) (before after : List Spec) (n : Spec)
      → network_namespace_path sb ≢ ""
      → specs p.store sb.uid ≡ before ++ n ∷ after
      → (run_pod_sandbox (recording answer) sb p).0 ≡ none
      → answer (p.host ++ map attaches (map (in_sandbox sb) before)) (attaches (in_sandbox sb n))
        ≡ none
  unfolding on_run_pod_sandbox sandbox_specs
  run_answer sb p before after n netns e h =
      let path = network_namespace_path sb in
      let f : path == "" ≡ false = ground (arith, netns, eq_iff path "") in
      let r = on_run_pod_sandbox (recording answer) sb.uid sb.id path sb.labels p.store p.host in
      let quiet : returned r ≡ none = rw⁻¹ (run_on_netns sb p f) h in
      let split = ap (map (in_sandbox sb)) e ∙ map-append (in_sandbox sb) before (n ∷ after) in
      attach_all-answer sb.uid (map (in_sandbox sb) before) (map (in_sandbox sb) after)
        (in_sandbox sb n) p.store p.host
        (ap (λ (ns : List Spec). (attach_all (recording answer) sb.uid ns p.store p.host).errors)
            (sym split)
          ∙ no_errors r.errors quiet)

  find_nic-split :
      (q : NicStore) (pod claim iface : String) (n : Spec)
      → find_nic q pod claim iface ≡ some n
      → (before : List Spec) × (after : List Spec) × (specs q pod ≡ before ++ n ∷ after)
  unfolding find_nic
  find_nic-split q pod claim iface n h = find-split claim iface (specs q pod) n h

  nic_attached :
      (sb : PodSandbox) (p : NriPlugin (List Call)) (claim iface : String) (n : Spec)
      → network_namespace_path sb ≢ ""
      → find_nic p.store sb.uid claim iface ≡ some n
      → (run_pod_sandbox (recording answer) sb p).0 ≡ none
      → (before : List Call) × (after : List Call) × ((run_pod_sandbox
            (recording answer)
            sb
            p).1.host
          ≡ p.host ++ (before ++ attaches (in_sandbox sb n) ∷ after))
        × (answer (p.host ++ before) (attaches (in_sandbox sb n)) ≡ none)
  nic_attached sb p claim iface n netns f h =
      let (before, after, e) = find_nic-split p.store sb.uid claim iface n f in
      let calls = λ (ns : List Spec). map attaches (map (in_sandbox sb) ns) in
      (
        calls before,
        calls after,
        run_attaches sb p netns h
            ∙ ap (λ ns. p.host ++ calls ns) e
            ∙ ap (λ l. p.host ++ l)
                (ap (map attaches) (map-append (in_sandbox sb) before (n ∷ after))
                  ∙ map-append attaches (map (in_sandbox sb) before)
                      (map (in_sandbox sb) (n ∷ after))),
        run_answer sb p before after n netns e h,
      )

module _ {W : Type 0} (setup : Setup W) (s : Settings) (host : Host W)
    (answer : List Call → Call → Option Error) (waits : Bool) where
  -- A pod does not start without the NICs of its claims. Let Prepare succeed, in a plugin with a NIC
  -- store, on a claim that was not in the checkpoint, which had one entry for each claim, with NICs of
  -- that claim only; and let `n` be a NIC that it records in the checkpoint for a pod. Whatever comes
  -- then but an Unprepare of this claim (Prepares and Unprepares of any outcome, refreshes, all calls
  -- of the runtime, lost connections and restarts, in any order), RunPodSandbox of the pod, in a
  -- sandbox with a network namespace, returns no error only where it has called Attach for `n`, and
  -- that returned none. This takes a checkpoint that is read back as it was written, that a failed
  -- write leaves as it was, and that the other calls of a start keep and find in the list.
  pub prepared_nics_are_attached :
      (laws : IsHost host) (atomic : IsAtomic host) (sets : IsSetup setup host) (t u : System W)
      (claim : ResourceClaim) (p p' : PreparedClaims) (store q : NicStore) (st : State W)
      (ids : List ApiDevice) (sb : PodSandbox) (iface : String) (n : Spec)
      → host.get_checkpoint t.state.world ≡ ok p
      → IsKept p
      → lookup_claim claim.uid p ≡ none
      → t.state.nic_store ≡ some store
      → prepare s host claim t.state ≡ (ok ids, st)
      → host.get_checkpoint st.world ≡ ok p'
      → recorded (lookup_claim claim.uid p') sb.uid claim.uid iface none ≡ some n
      → Runs setup s host answer waits claim.uid (record t { state = st }) u
      → u.state.nic_store ≡ some q
      → network_namespace_path sb ≢ ""
      → (run_pod_sandbox (recording answer) sb (on_store q u.nri).plugin).0 ≡ none
      → (before : List Call) × (after : List Call) × ((run_pod_sandbox
            (recording answer)
            sb
            (on_store q u.nri).plugin).1.host
          ≡ u.nri.plugin.host ++ (before ++ attaches (in_sandbox sb n) ∷ after))
        × (answer (u.nri.plugin.host ++ before) (attaches (in_sandbox sb n)) ≡ none)
  unfolding recorded
  prepared_nics_are_attached laws atomic sets t u claim p p' store q st ids sb iface n c kept z i h
        c' l run j netns ok_run =
      let (ds, _, k) =
        prepared-Holds setup s host answer waits laws claim p store t.state st ids c kept z i h in
      let same : p' ≡ k.claims = ok-injective (sym c' ∙ k.on_disk) in
      let l' : latest ds sb.uid claim.uid iface none ≡ some n =
        ap (λ o. recorded o sb.uid claim.uid iface none)
          (sym (ap (lookup_claim claim.uid) same ∙ k.good.entry))
        ∙ l in
      nic_attached answer sb (on_store q u.nri).plugin claim.uid iface n netns
        (held_found setup s host answer waits laws atomic sets claim.uid ds u.state q sb.uid iface n
          (Runs-Holds setup s host answer waits laws atomic sets claim.uid ds run k) j l')
        ok_run
