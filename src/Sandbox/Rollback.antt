-- ===== src/Sandbox/Rollback.antt =====
-- What the sandbox hooks of pkg/plumbing/nri.go do to the host and to the NIC store, call by call,
-- whatever the attacher answers.
use mathlib.Core.List.{append_assoc, append-nil}
use kube_ovn_dra_driver.Prelude.{
  String, Option, none, some, List, [], ◌∷◌, ◌++◌, ◌≡◌, ◌≢◌, refl, sym, ap, ◌∙◌, ◌⊎◌, inl, inr, Map,
  map, Error, Option-cases, get_list, eq_refl,
}
use kube_ovn_dra_driver.Store.{NicStore, Spec, mark_attached, take_attached}
use kube_ovn_dra_driver.Sandbox.{
  Attacher, Handled, sandbox_specs, detach_all, roll_back, attach_all, on_run_pod_sandbox,
}

pub data Call : Type 0 where
  attaches detaches : Spec → Call
  detaches_ports : String → String → Call

-- An attacher that answers each call from the calls made so far, as `answer` says.
abbrev pub recording : (List Call → Call → Option Error) → Attacher (List Call)
recording answer = record {
  attach = λ s w. (answer w (attaches s), w ++ attaches s ∷ []);
  detach = λ s w. (answer w (detaches s), w ++ detaches s ∷ []);
  detach_pod_ports = λ n ns w. (answer w (detaches_ports n ns), w ++ detaches_ports n ns ∷ []);
}

-- The store after every Spec of the list is marked attached.
unfoldable pub mark_all : String → List Spec → NicStore → NicStore
mark_all pod [] p = p
mark_all pod (s ∷ ss) p = mark_all pod ss (mark_attached p pod s)

pub by_pod-mark_all :
    (pod : String) (ss : List Spec) (p : NicStore) → (mark_all pod ss p).by_pod ≡ p.by_pod
unfolding mark_all mark_attached
by_pod-mark_all pod [] p = refl
by_pod-mark_all pod (s ∷ ss) p = by_pod-mark_all pod ss (mark_attached p pod s)

module _ (answer : List Call → Call → Option Error) where
  pub detach_all-host :
      (ss : List Spec) (w : List Call)
      → (detach_all (recording answer) ss w).1 ≡ w ++ map detaches ss
  unfolding detach_all
  detach_all-host [] w = sym (append-nil w)
  detach_all-host (s ∷ ss) w =
      detach_all-host ss (w ++ detaches s ∷ []) ∙ append_assoc w (detaches s ∷ []) (map detaches ss)

  -- Attaching the NICs in turn after the calls `w` was answered without an error each time.
  abbrev pub AllAttached : List Call → List Spec → Type 0
  AllAttached w [] = Unit
  AllAttached w (s ∷ ss) = (answer w (attaches s) ≡ none) × AllAttached (w ++ attaches s ∷ []) ss

  -- All of `ss` attached without an error and marked, or the first failure rolled back.
  abbrev pub RunOutcome : String → List Spec → NicStore → List Call → Handled (List Call) → Type 0
  RunOutcome pod ss p w h =
      ((h.errors ≡ [])
        × (h.host ≡ w ++ map attaches ss)
        × (h.store ≡ mark_all pod ss p)
        × AllAttached w ss)
      ⊎ ((done : List Spec) × (failed : Spec) × (rest : List Spec) × (h.errors ≢ [])
          × (ss ≡ done ++ failed ∷ rest)
          × (h.host
              ≡ w
                ++ (map attaches done
                    ++ attaches failed
                      ∷ map detaches (get_list ((mark_all pod done p).attached pod))))
          × (h.store.attached pod ≡ none)
          × (h.store.by_pod ≡ p.by_pod)
          × AllAttached w done
          × ((x : Error) × (answer (w ++ map attaches done) (attaches failed) ≡ some x)))

  RunOutcome-cons :
      (pod : String) (s : Spec) (ss : List Spec) (p : NicStore) (w : List Call)
      (h : Handled (List Call))
      → answer w (attaches s) ≡ none
      → RunOutcome pod ss (mark_attached p pod s) (w ++ attaches s ∷ []) h
      → RunOutcome pod (s ∷ ss) p w h
  unfolding mark_all mark_attached
  RunOutcome-cons pod s ss p w h a (inl (e, c, m, all)) =
      inl (e, c ∙ append_assoc w (attaches s ∷ []) (map attaches ss), m, (a, all))
  RunOutcome-cons pod s ss p w h a
        (inr (done, failed, rest, e, split, c, t, b, all, (x, answered))) =
      inr (
        s ∷ done,
        failed,
        rest,
        e,
        ap (λ l. s ∷ l) split,
        c ∙ append_assoc w (attaches s ∷ []) _,
        t,
        b,
        (a, all),
        (
          x,
          ap (λ l. answer l (attaches failed))
                (sym (append_assoc w (attaches s ∷ []) (map attaches done)))
              ∙ answered,
        ),
      )

  roll_back-RunOutcome :
      (pod : String) (s : Spec) (ss : List Spec) (p : NicStore) (w : List Call) (x : Error)
      → answer w (attaches s) ≡ some x
      → RunOutcome pod (s ∷ ss) p w (roll_back (recording answer) pod x p (w ++ attaches s ∷ []))
  unfolding roll_back take_attached mark_all
  roll_back-RunOutcome pod s ss p w x a = inr (
    [],
    s,
    ss,
    (λ e. cc e),
    refl,
    detach_all-host (get_list (p.attached pod)) (w ++ attaches s ∷ [])
        ∙ append_assoc w (attaches s ∷ []) _,
    simp eq_refl,
    refl,
    tt,
    (x, ap (λ l. answer l (attaches s)) (append-nil w) ∙ a),
  )

  no_nics :
      (pod : String) (p : NicStore) (w : List Call)
      → RunOutcome pod [] p w (attach_all (recording answer) pod [] p w)
  unfolding attach_all mark_all
  no_nics pod p w = inl (refl, sym (append-nil w), refl, tt)

  goes_on :
      (pod : String) (s : Spec) (ss : List Spec) (p : NicStore) (w : List Call)
      → answer w (attaches s) ≡ none
      → attach_all (recording answer) pod (s ∷ ss) p w
        ≡ attach_all (recording answer) pod ss (mark_attached p pod s) (w ++ attaches s ∷ [])
  unfolding attach_all
  goes_on pod s ss p w e = rw (e, attach_all) refl

  gives_up :
      (pod : String) (s : Spec) (ss : List Spec) (p : NicStore) (w : List Call) (x : Error)
      → answer w (attaches s) ≡ some x
      → attach_all (recording answer) pod (s ∷ ss) p w
        ≡ roll_back (recording answer) pod x p (w ++ attaches s ∷ [])
  unfolding attach_all
  gives_up pod s ss p w x e = rw (e, attach_all) refl

  attach_all-RunOutcome :
      (pod : String) (ss : List Spec) (p : NicStore) (w : List Call)
      → RunOutcome pod ss p w (attach_all (recording answer) pod ss p w)
  attach_all-RunOutcome pod [] p w = no_nics pod p w
  attach_all-RunOutcome pod (s ∷ ss) p w = elim (Option-cases (answer w (attaches s))) [
    | inl e ↦ rw (goes_on pod s ss p w e) (
        RunOutcome-cons pod s ss p w _ e
          (attach_all-RunOutcome pod ss (mark_attached p pod s) (w ++ attaches s ∷ [])))
    | inr (x, e) ↦ rw (gives_up pod s ss p w x e) (roll_back-RunOutcome pod s ss p w x e)
  ]

  -- RunPodSandbox is all or nothing, whatever the attacher answers. Without an error every NIC of
  -- the sandbox was attached, in order, with no other call, every attach was answered without an
  -- error, and all are marked attached. With an error the calls are the attaches up to the first
  -- that was answered with an error, then one detach for each NIC marked attached; no mark of the
  -- pod is left, and the NICs of all pods stay for a retry.
  pub on_run_pod_sandbox_all_or_nothing :
      (pod container netns : String) (labels : Map String) (p : NicStore) (w : List Call)
      → RunOutcome pod
          (sandbox_specs p pod container netns labels)
          p
          w
          (on_run_pod_sandbox (recording answer) pod container netns labels p w)
  unfolding on_run_pod_sandbox
  on_run_pod_sandbox_all_or_nothing pod container netns labels p w =
      attach_all-RunOutcome pod (sandbox_specs p pod container netns labels) p w
