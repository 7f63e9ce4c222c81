-- ===== src/Linux/Bridge/Plan.antt =====
-- The order of the changes of wireVMIBridge in pkg/plumbing/plumbing_linux.go.
use kube_ovn_dra_driver.Prelude.{
  ℕ, String, ◌==◌, Bool, true, false, List, [], ◌∷◌, ◌++◌, ◌≡◌, refl, Result, ok, err, ok-injective,
  wrapping-eq-ok, if◌then◌else◌,
}
use kube_ovn_dra_driver.Exec.{Exec}
use kube_ovn_dra_driver.Exec.Sealed.{◌>>=◌, ◌>>◌, pure, lift, wrapping}
use kube_ovn_dra_driver.Store.{Spec}
use kube_ovn_dra_driver.Linux.{
  Texts, Link, Scope, Request, thread, handle, is_exists, add_tap, add_bridge, set_up, set_down,
  set_name, set_mac, set_master, set_learning,
}
use kube_ovn_dra_driver.Linux.Trace.{Call, looks_up, requests, runs, Oracle, recorder}
use kube_ovn_dra_driver.Linux.Trace.Runs.{
  Runs, Runs-pure, Runs-wrapping, Runs-bind, Runs-after, Runs-then, RunsTo, after_at, changes,
  Runs-request, Runs-tolerating, Runs-switched_to, Runs-command, unchanged,
}
use kube_ovn_dra_driver.Linux.Bridge.{
  add_tuntap_in_netns, bridge_fdb_replace_static, ask, set_tap_mac, forward_tap_mac, wire_ports,
  wire_tap, wire_new,
}

parsed_call : (List ℕ → Call) → Result (List ℕ) → List Call
parsed_call call (ok m) = call m ∷ []
parsed_call call (err e) = []

-- What is done with the MAC of the NIC, if it has one that parses.
pub with_mac : Texts → String → (List ℕ → Call) → List Call
unfolding parsed_call
with_mac t mac call = if mac == "" then [] else parsed_call call (t.parse_mac mac)

fdb_call : Texts → List ℕ → Link → Call
fdb_call t mac tap =
    runs "bridge"
      ("fdb" ∷ "replace" ∷ t.format_mac mac ∷ "dev" ∷ tap.name ∷ "master" ∷ "static" ∷ [])

-- The changes behind the lookup of the tap.
pub ports_plan : Texts → Spec → ℕ → Link → Link → Link → List Call
unfolding with_mac fdb_call
ports_plan t spec h veth bridge tap =
    with_mac t spec.mac (λ m. requests (handle h) (set_mac tap m))
    ++ (requests (handle h) (set_mac veth bridge.mac)
        ∷ requests (handle h) (set_master veth bridge)
        ∷ requests (handle h) (set_master tap bridge)
        ∷ requests (handle h) (set_up veth)
        ∷ requests (handle h) (set_up tap)
        ∷ requests (handle h) (set_up bridge)
        ∷ requests (handle h) (set_learning veth false)
        ∷ with_mac t spec.mac (λ m. fdb_call t m tap))

-- All changes: the veth steps aside, the bridge is made and its MAC pinned, the tap takes the name.
pub wire_plan : Texts → Spec → String → String → ℕ → Link → Link → Link → List Call
unfolding ports_plan
wire_plan t spec veth_name bridge_name h veth bridge tap =
    requests (handle h) (set_down veth)
    ∷ requests (handle h) (set_name veth veth_name)
    ∷ requests (handle h) (add_bridge bridge_name)
    ∷ requests (handle h) (set_mac bridge bridge.mac)
    ∷ requests thread (add_tap spec.iface_name 107 107)
    ∷ ports_plan t spec h veth bridge tap

module _ (o : Oracle) (t : Texts) where
  ask-Runs :
      (h : ℕ) (f : String) (args : List String) (r : Request)
      → Runs (ask (recorder o) t h f args r) (requests (handle h) r ∷ [])
  unfolding ask
  ask-Runs h f args r = Runs-wrapping f args _ _ (Runs-request o (handle h) r)

  -- One step, and what comes after it.
  then_ask :
      {A : Type 0} (h : ℕ) (f : String) (args : List String) (r : Request) (m : Exec (List Call) A)
      (later : List Call)
      → Runs m later
      → Runs (ask (recorder o) t h f args r >> m) (requests (handle h) r ∷ later)
  then_ask h f args r m later km =
      Runs-bind _ (λ _. m) (requests (handle h) r ∷ []) later (ask-Runs h f args r) (λ _. km)

  module _ (f : String) (args : List String) (call : List ℕ → Call)
      (step : List ℕ → Exec (List Call) (Unit {0}))
      (one : (m : List ℕ) → Runs (step m) (call m ∷ [])) where
    parsed-Runs :
        (b : Bool) (r : Result (List ℕ))
        → Runs
            (if b then pure tt else (wrapping f args (lift r) >>= step))
            (if b then [] else parsed_call call r)
    unfolding parsed_call wrapping lift
    parsed-Runs true r = Runs-pure tt
    parsed-Runs false (ok m) =
        Runs-after (wrapping f args (lift (ok m))) step (call m ∷ []) (λ w. refl)
          (λ w a e. rw⁻¹ (ok-injective e) (one m))
    parsed-Runs false (err x) =
        Runs-after (wrapping f args (lift (err x))) step [] (λ w. refl) (λ w a e. cc)

  set_tap_mac-Runs :
      (spec : Spec) (h : ℕ) (tap : Link)
      → Runs
          (set_tap_mac (recorder o) t spec h tap)
          (with_mac t spec.mac (λ m. requests (handle h) (set_mac tap m)))
  unfolding set_tap_mac with_mac
  set_tap_mac-Runs spec h tap =
      parsed-Runs _ _ _ _ (λ m. ask-Runs h _ _ (set_mac tap m)) (spec.mac == "")
        (t.parse_mac spec.mac)

  forward_tap_mac-Runs :
      (spec : Spec) (ns : ℕ) (tap : Link)
      → Runs
          (forward_tap_mac (recorder o) t spec ns tap)
          (with_mac t spec.mac (λ m. fdb_call t m tap))
  unfolding forward_tap_mac with_mac bridge_fdb_replace_static fdb_call
  forward_tap_mac-Runs spec ns tap =
      parsed-Runs _ _ _ _
        (λ m. Runs-wrapping _ _ _ _ (
          Runs-switched_to o ns _ _ (
            Runs-bind _ _ (fdb_call t m tap ∷ []) [] (Runs-command o t _ _ _ _)
              (λ out. Runs-pure tt))))
        (spec.mac == "") (t.parse_mac spec.mac)

  wire_ports-Runs :
      (spec : Spec) (veth_name bridge_name : String) (ns h : ℕ) (veth bridge tap : Link)
      → Runs
          (wire_ports (recorder o) t spec veth_name bridge_name ns h veth bridge tap)
          (ports_plan t spec h veth bridge tap)
  unfolding wire_ports ports_plan
  wire_ports-Runs spec veth_name bridge_name ns h veth bridge tap =
      Runs-bind _ _ _ _ (set_tap_mac-Runs spec h tap) λ u. then_ask h _ _ _ _ _ (
        then_ask h _ _ _ _ _ (
          then_ask h _ _ _ _ _ (
            then_ask h _ _ _ _ _ (
              then_ask h _ _ _ _ _
                (then_ask h _ _ _ _ _ (then_ask h _ _ _ _ _ (forward_tap_mac-Runs spec ns tap)))))))

  -- Where the last change asked for is `c`, a lookup of the name that succeeds finds the link.
  abbrev pub FoundAfter : Call → Scope → String → Link → Type 0
  FoundAfter c s name link =
      (w before : List Call) (l : Link)
      → changes w ≡ before ++ c ∷ []
      → o.link w (looks_up s name) ≡ ok l
      → l ≡ link

  find-RunsTo :
      {B : Type 0} (f : String) (args : List String) (c : Call) (s : Scope) (name : String)
      (link : Link) (rest : Link → Exec (List Call) B) (later before w : List Call)
      → FoundAfter c s name link
      → changes w ≡ before ++ c ∷ []
      → Runs (rest link) later
      → let (r, w') = (wrapping f args ((recorder o).link_by_name s name) >>= rest) w in
        RunsTo later w r w'
  unfolding wrapping
  find-RunsTo f args c s name link rest later before w found last k =
      after_at _ rest later w (unchanged (looks_up s name) w refl) (λ l e.
        let is : l ≡ link =
          found w before l last (wrapping-eq-ok f args (o.link w (looks_up s name)) e) in
        rw is k)

  module _ (spec : Spec) (veth_name bridge_name : String) (ns h : ℕ) (veth bridge tap : Link) where
    add_tap-Runs :
        Runs
          (add_tuntap_in_netns (recorder o) t ns spec.iface_name)
          (requests thread (add_tap spec.iface_name 107 107) ∷ [])
    unfolding add_tuntap_in_netns
    add_tap-Runs = Runs-switched_to o ns _ _ (Runs-tolerating o (is_exists t) thread _)

    module _
        (found_tap : FoundAfter
          (requests thread (add_tap spec.iface_name 107 107))
          (handle h)
          spec.iface_name
          tap) where
      wire_tap-Runs : Runs (wire_tap (recorder o) t spec veth_name bridge_name ns h veth bridge) (
          requests (handle h) (set_mac bridge bridge.mac)
          ∷ requests thread (add_tap spec.iface_name 107 107)
          ∷ ports_plan t spec h veth bridge tap)
      unfolding wire_tap
      wire_tap-Runs = then_ask h _ _ _ _ _ (
          Runs-then _ _ (requests thread (add_tap spec.iface_name 107 107) ∷ []) _
            (Runs-wrapping _ _ _ _ add_tap-Runs)
            λ u before w last.
              find-RunsTo _ _ _ (handle h) spec.iface_name tap
                (wire_ports (recorder o) t spec veth_name bridge_name ns h veth bridge) _ before w
                found_tap last (wire_ports-Runs spec veth_name bridge_name ns h veth bridge tap))

      -- Wiring a veth asks for the changes of `wire_plan` in that order: for all of them where it
      -- returns nil, else for a first part of them; so the bridge's MAC is pinned before a port is
      -- enslaved, the tap is enslaved and up before its MAC becomes a forwarding entry, and nothing
      -- else is changed. Here `bridge` is the link that a lookup of the bridge finds just after the
      -- bridge was asked for, and `tap` the one that a lookup of the interface's name finds just
      -- after the tap was asked for.
      pub wire_new-Runs :
          FoundAfter (requests (handle h) (add_bridge bridge_name)) (handle h) bridge_name bridge
          → Runs
              (wire_new (recorder o) t spec veth_name bridge_name ns h veth)
              (wire_plan t spec veth_name bridge_name h veth bridge tap)
      unfolding wire_new wire_plan
      wire_new-Runs found_bridge = then_ask h _ _ _ _ _ (
          then_ask h _ _ _ _ _ (
            Runs-then _ _ (requests (handle h) (add_bridge bridge_name) ∷ []) _
              (Runs-wrapping _ _ _ _ (Runs-tolerating o (is_exists t) (handle h) _))
              λ u before w last.
                find-RunsTo _ _ _ (handle h) bridge_name bridge
                  (wire_tap (recorder o) t spec veth_name bridge_name ns h veth) _ before w
                  found_bridge last wire_tap-Runs))
