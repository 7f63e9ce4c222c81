-- ===== src/Attach/Steps.antt =====
-- The order of the steps of Attach in pkg/plumbing/plumbing.go and what it undoes, against an
-- independent description: a list of steps, each with the calls that undo what stands before it.
use mathlib.Core.List.{append_assoc, append-nil}
use kube_ovn_dra_driver.Prelude.{
  ℕ, String, ◌<>◌, Option, none, some, List, [], ◌∷◌, ◌++◌, ◌≡◌, ◌≢◌, refl, sym, ap, ◌∙◌, ◌⊎◌, inl,
  inr, arith, map, Error, Option-cases, Bool, true, false, ok, if◌then◌else◌, nat_eq,
}
use kube_ovn_dra_driver.Store.{Spec}
use kube_ovn_dra_driver.Attach.{
  Datapath, ShortHash, validate, veth_names, attach, plug, with_mtu, or_else, cleanup,
}

pub data Op : Type 0 where
  asks : String → Op
  creates : String → String → ℕ → Op
  moves : String → String → String → Op
  configures wires unwires : Spec → Op
  binds unbinds : String → Spec → Op
  cleans : String → Op
  clears : String → String → Op

abbrev pub Answers : Type 0
Answers = List Op → Op → Option Error

-- A datapath that answers each call from the calls made so far, as `answer` says.
abbrev pub recording : Answers → ℕ → Datapath (List Op)
recording answer mtu = record {
  primary_mtu = λ netns w. (mtu, w ++ asks netns ∷ []);
  create_veth_pair = λ h p m w. (answer w (creates h p m), w ++ creates h p m ∷ []);
  move_into_netns = λ p n i w. (answer w (moves p n i), w ++ moves p n i ∷ []);
  configure_pod_iface = λ s w. (answer w (configures s), w ++ configures s ∷ []);
  attach_to_ovs = λ h s w. (answer w (binds h s), w ++ binds h s ∷ []);
  wire_vmi_bridge = λ s w. (answer w (wires s), w ++ wires s ∷ []);
  unwire_vmi_bridge = λ s w. (answer w (unwires s), w ++ unwires s ∷ []);
  detach_from_ovs = λ h s w. (answer w (unbinds h s), w ++ unbinds h s ∷ []);
  cleanup_host_veth = λ h w. (answer w (cleans h), w ++ cleans h ∷ []);
  detach_pod_ports = λ n ns w. (answer w (clears n ns), w ++ clears n ns ∷ []);
}

-- The steps of an attach, each with what is undone when it fails.
pub attach_steps : String → String → Spec → List (Op × List Op)
attach_steps host pod s =
    (creates host pod s.mtu, [])
    ∷ (moves pod s.netns_path s.iface_name, cleans host ∷ [])
    ∷ (configures s, cleans host ∷ [])
    ∷ (binds host s, cleans host ∷ [])
    ∷ (if s.kube_virt_vmi then (wires s, unbinds host s ∷ cleans host ∷ []) ∷ [] else [])

-- The steps, made in turn after the calls `w`, were answered without an error each time.
abbrev pub AllAnswered : Answers → List Op → List (Op × List Op) → Type 0
AllAnswered answer w [] = Unit
AllAnswered answer w ((o, u) ∷ steps) = (answer w o ≡ none) × AllAnswered answer (w ++ o ∷ []) steps

-- Every step was made without an error, or the steps up to the first that was answered with an
-- error, then what undoes them.
abbrev pub StepsOutcome : Answers → List (Op × List Op) → List Op → Option Error × List Op → Type 0
StepsOutcome answer steps w r =
    ((r.0 ≡ none) × (r.1 ≡ w ++ map (λ (t : Op × List Op). t.0) steps) × AllAnswered answer w steps)
    ⊎ ((done : List (Op × List Op)) × (failed : Op) × (undo : List Op) × (rest : List
          (Op × List Op))
        × (r.0 ≡ answer (w ++ map (λ (t : Op × List Op). t.0) done) failed)
        × (r.0 ≢ none)
        × AllAnswered answer w done
        × (steps ≡ done ++ (failed, undo) ∷ rest)
        × (r.1 ≡ w ++ (map (λ (t : Op × List Op). t.0) done ++ failed ∷ undo)))

module _ (answer : Answers) (mtu : ℕ) (hash : ShortHash) where
  StepsOutcome-cons :
      (o : Op) (u : List Op) (steps : List (Op × List Op)) (w : List Op)
      (r : Option Error × List Op)
      → answer w o ≡ none
      → StepsOutcome answer steps (w ++ o ∷ []) r
      → StepsOutcome answer ((o, u) ∷ steps) w r
  StepsOutcome-cons o u steps w r a (inl (e, c, all)) =
      inl (e, c ∙ append_assoc w (o ∷ []) _, (a, all))
  StepsOutcome-cons o u steps w r a (inr (done, failed, undo, rest, x, e, all, split, c)) = inr (
    (o, u) ∷ done,
    failed,
    undo,
    rest,
    x ∙ ap (λ l. answer l failed) (append_assoc w (o ∷ []) _),
    e,
    (a, all),
    ap (λ l. (o, u) ∷ l) split,
    c ∙ append_assoc w (o ∷ []) _,
  )

  -- One step: it fails and is undone, or the rest runs.
  answered-StepsOutcome :
      (a : Option Error) (o : Op) (u : List Op) (steps : List (Op × List Op)) (w : List Op)
      (undo : List Op → List Op) (rest : List Op → Option Error × List Op)
      → answer w o ≡ a
      → undo (w ++ o ∷ []) ≡ w ++ o ∷ u
      → StepsOutcome answer steps (w ++ o ∷ []) (rest (w ++ o ∷ []))
      → StepsOutcome answer
          ((o, u) ∷ steps)
          w
          (or_else hash (recording answer mtu) (a, w ++ o ∷ []) undo rest)
  answered-StepsOutcome none o u steps w undo rest e undone h = StepsOutcome-cons o u steps w _ e h
  answered-StepsOutcome (some x) o u steps w undo rest e undone h = inr (
    [],
    o,
    u,
    steps,
    sym e ∙ ap (λ l. answer l o) (sym (append-nil w)),
    (λ n. cc n),
    tt,
    refl,
    undone,
  )

  or_else-StepsOutcome :
      (o : Op) (u : List Op) (steps : List (Op × List Op)) (w : List Op) (undo : List Op → List Op)
      (rest : List Op → Option Error × List Op)
      → undo (w ++ o ∷ []) ≡ w ++ o ∷ u
      → StepsOutcome answer steps (w ++ o ∷ []) (rest (w ++ o ∷ []))
      → StepsOutcome answer
          ((o, u) ∷ steps)
          w
          (or_else hash (recording answer mtu) (answer w o, w ++ o ∷ []) undo rest)
  or_else-StepsOutcome o u steps w undo rest =
      answered-StepsOutcome (answer w o) o u steps w undo rest refl

  -- A step that is undone by the removal of the host veth.
  cleaned-StepsOutcome :
      (o : Op) (host : String) (steps : List (Op × List Op)) (w : List Op)
      (rest : List Op → Option Error × List Op)
      → StepsOutcome answer steps (w ++ o ∷ []) (rest (w ++ o ∷ []))
      → StepsOutcome answer ((o, cleans host ∷ []) ∷ steps) w (
          or_else hash
            (recording answer mtu)
            (answer w o, w ++ o ∷ [])
            (cleanup hash (recording answer mtu) host)
            rest)
  cleaned-StepsOutcome o host steps w rest h =
      or_else-StepsOutcome o (cleans host ∷ []) steps w (cleanup hash (recording answer mtu) host)
        rest (append_assoc w (o ∷ []) (cleans host ∷ [])) h

  wire_step :
      (b : Bool) (host : String) (s : Spec) (w : List Op)
      → StepsOutcome answer
          (if b then (wires s, unbinds host s ∷ cleans host ∷ []) ∷ [] else [])
          w
          (if b
            then or_else hash
                (recording answer mtu)
                (answer w (wires s), w ++ wires s ∷ [])
                (λ w'. (w' ++ unbinds host s ∷ []) ++ cleans host ∷ [])
                (λ w'. (none, w'))
            else (none, w))
  wire_step true host s w =
      or_else-StepsOutcome (wires s) (unbinds host s ∷ cleans host ∷ []) [] w
        (λ w'. (w' ++ unbinds host s ∷ []) ++ cleans host ∷ []) (λ w'. (none, w'))
        (append_assoc (w ++ wires s ∷ []) (unbinds host s ∷ []) (cleans host ∷ [])
          ∙ append_assoc w (wires s ∷ []) (unbinds host s ∷ cleans host ∷ []))
        (inl (refl, sym (append-nil (w ++ wires s ∷ [])), tt))
  wire_step false host s w = inl (refl, sym (append-nil w), tt)

  plug-StepsOutcome :
      (host pod : String) (s : Spec) (w : List Op)
      → StepsOutcome answer
          (attach_steps host pod s)
          w
          (plug hash (recording answer mtu) host pod s w)
  unfolding plug attach_steps
  plug-StepsOutcome host pod s w =
      or_else-StepsOutcome (creates host pod s.mtu) [] _ w (λ w'. w') _ refl
        (cleaned-StepsOutcome (moves pod s.netns_path s.iface_name) host _ _ _ (
          cleaned-StepsOutcome (configures s) host _ _ _
            (cleaned-StepsOutcome (binds host s) host _ _ _ (wire_step s.kube_virt_vmi host s _))))

  -- A Spec that Validate accepts has a container to derive the veth names from.
  veth_names_of_valid :
      (s : Spec)
      → validate s ≡ none
      → let key = s.container_id <> ("/" <> s.iface_name) in
        veth_names hash s ≡ ok ("vh" <> hash key, "vc" <> hash key)
  unfolding validate veth_names
  veth_names_of_valid s h = ground arith

  with_mtu_lem :
      (s : Spec) (w : List Op)
      → with_mtu hash (recording answer mtu) s w ≡ (
        record s { mtu = if nat_eq s.mtu 0 then mtu else s.mtu },
        if nat_eq s.mtu 0 then w ++ asks s.netns_path ∷ [] else w,
      )
  unfolding with_mtu
  with_mtu_lem s w = ground arith

  -- Attach of a Spec that lacks a field makes no call and returns the error of Validate. Any other
  -- Attach first asks for the MTU of eth0 where the Spec has none, then makes the steps of
  -- `attach_steps` in order, under the names derived from the container and the interface. Without
  -- an error all were made and answered without one; on the first that is answered with an error it
  -- makes exactly the calls that undo it, and returns that error.
  pub attach_undoes_or_completes :
      (s : Spec) (w : List Op)
      → let key = s.container_id <> ("/" <> s.iface_name) in
        let r = attach hash (recording answer mtu) s w in
        ((x : Error) × (validate s ≡ some x) × (r ≡ (some x, w)))
        ⊎ ((validate s ≡ none)
            × StepsOutcome answer
                (attach_steps
                  ("vh" <> hash key)
                  ("vc" <> hash key)
                  (record s { mtu = if nat_eq s.mtu 0 then mtu else s.mtu }))
                (if nat_eq s.mtu 0 then w ++ asks s.netns_path ∷ [] else w)
                r)
  unfolding attach
  attach_undoes_or_completes s w = elim (Option-cases (validate s)) [
    | inl e ↦ inr (
      e,
      rw (e, attach)
          (rw (veth_names_of_valid s e, attach) (rw with_mtu_lem (plug-StepsOutcome _ _ _ _))),
    )
    | inr (x, e) ↦ inl (x, e, rw (e, attach))
  ]
