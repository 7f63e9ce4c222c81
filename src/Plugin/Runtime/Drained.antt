-- ===== src/Plugin/Runtime/Drained.antt =====
-- One tick of the retries of cmd/kube-ovn-dra-kubeletplugin/nri.go once attaches succeed again.
use kube_ovn_dra_driver.Prelude.{
  String, ◌==◌, Bool, true, false, ◌||◌, none, List, [], ◌∷◌, ◌≡◌, refl, arith, inl, inr, All, map,
  eq_iff, Bool-cases,
}
use kube_ovn_dra_driver.Store.{NicStore, Spec, mark_attached}
use kube_ovn_dra_driver.Sandbox.{Attacher, sync_all, on_synchronize_sandbox, sandbox_specs}
use kube_ovn_dra_driver.Plugin.Runtime.{
  PodSandbox, Failed, NriPlugin, network_namespace_path, remove, sync_sandbox, sync_sandboxes,
  retry_failed,
}
use kube_ovn_dra_driver.Plugin.Runtime.Retries.{IsWaiting}

abbrev has_uid : Failed → String → Bool
has_uid [] uid = false
has_uid ((k, sb) ∷ f) uid = k == uid || has_uid f uid

-- Every entry of the second list has its key in the first.
abbrev Covers : Failed → Failed → Type 0
Covers f = All (λ (e : String × PodSandbox). has_uid f e.0 ≡ true)

remove-Covers :
    (k : String) (sb : PodSandbox) (f g : Failed) → Covers ((k, sb) ∷ f) g → Covers f (remove k g)
unfolding remove
remove-Covers k sb f [] c = tt
remove-Covers k sb f ((j, other) ∷ g) (c, cs) = elim (Bool-cases (j == k)) [
  | inl e ↦ rw e (remove-Covers k sb f g cs)
  | inr e ↦ rw e (ground (arith, c, e, eq_iff j k, eq_iff k j), remove-Covers k sb f g cs)
]

Covers-refl : (f : Failed) → Covers f f
Covers-refl [] = tt
Covers-refl ((k, sb) ∷ f) = (ground (arith, eq_iff k k), weaken f (Covers-refl f))
  where
    weaken : (g : Failed) → Covers f g → Covers ((k, sb) ∷ f) g
    weaken [] c = tt
    weaken ((j, other) ∷ g) (c, cs) = (ground (arith, c), weaken g cs)

module _ {W : Type 0} (attacher : Attacher W)
    (attaches : (s : Spec) (w : W) → (attacher.attach s w).0 ≡ none) where
  sync_all-errors :
      (pod : String) (ss : List Spec) (p : NicStore) (w : W)
      → (sync_all attacher pod ss p w).errors ≡ []
  unfolding sync_all
  sync_all-errors pod [] p w = refl
  sync_all-errors pod (s ∷ ss) p w =
      rw (attaches s w, sync_all)
        (sync_all-errors pod ss (mark_attached p pod s) (attacher.attach s w).1)

  sync_sandbox-removes :
      (uid : String) (sb : PodSandbox) (p : NriPlugin W)
      → IsWaiting (uid, sb)
      → (sync_sandbox attacher sb p).failed ≡ remove uid p.failed
  unfolding sync_sandbox on_synchronize_sandbox
  sync_sandbox-removes uid sb p (same, h) = ground (
    arith,
    same,
    h,
    eq_iff (network_namespace_path sb) "",
    sync_all-errors sb.uid
        (sandbox_specs p.store sb.uid sb.id (network_namespace_path sb) sb.labels) p.store p.host,
  )

  drains :
      (f : Failed) (p : NriPlugin W)
      → All IsWaiting f
      → Covers f p.failed
      → (sync_sandboxes attacher (map (λ (e : String × PodSandbox). e.1) f) p).failed ≡ []
  unfolding sync_sandboxes
  drains [] p w c = nothing p.failed c
    where
      nothing : (g : Failed) → Covers [] g → g ≡ []
      nothing [] c = refl
      nothing (e ∷ g) (c, cs) = absurd (cc c)
  drains ((uid, sb) ∷ f) p (w, ws) c =
      drains f (sync_sandbox attacher sb p) ws
        (rw (sync_sandbox-removes uid sb p w) (remove-Covers uid sb f p.failed c))

-- The retries end: where no attach fails any more, and each failed sandbox stands under its UID and
-- has a network namespace, one tick leaves no failed sandbox.
pub retry_failed-drains :
    {W : Type 0} (attacher : Attacher W) (p : NriPlugin W)
    → ((s : Spec) (w : W) → (attacher.attach s w).0 ≡ none)
    → All IsWaiting p.failed
    → (retry_failed attacher p).failed ≡ []
unfolding retry_failed
retry_failed-drains attacher p attaches w =
    drains attacher attaches p.failed p w (Covers-refl p.failed)
