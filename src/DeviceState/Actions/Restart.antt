-- ===== src/DeviceState/Actions/Restart.antt =====
-- A restart of the plugin: restoreNICs of cmd/kube-ovn-dra-kubeletplugin/state.go against the NICs
-- that the store had, after Prepares, Unprepares and refreshes that succeeded.
use kube_ovn_dra_driver.Prelude.{
  String, ◌==◌, Bool, none, some, List, [], ◌≡◌, refl, sym, ap, ◌∙◌, inl, inr, arith, Result, ok,
  eq_iff, Bool-cases, Result-cases, ok-injective,
}
use mathlib.Core.Path.{subst}
use kube_ovn_dra_driver.Store.{NicStore, new_nic_store, specs, remove_claim}
use kube_ovn_dra_driver.Store.Lookup.{find_nic, find_nic-remove_claim}
use kube_ovn_dra_driver.Claim.{ResourceClaim}
use kube_ovn_dra_driver.Cdi.{ApiDevice, PreparedDevice}
use kube_ovn_dra_driver.DeviceState.Host.{
  PreparedClaims, Resources, Settings, Host, IsHost, State, lookup_claim, insert_claim,
  delete_claim,
}
use kube_ovn_dra_driver.DeviceState.Parts.{add_nics}
use kube_ovn_dra_driver.DeviceState.Actions.{prepare, unprepare, refresh_devices, restore_nics}
use kube_ovn_dra_driver.DeviceState.Devices.Checkpointed.{OfClaim}
use kube_ovn_dra_driver.DeviceState.Actions.Outcome.{
  lookup_claim-insert_claim, lookup_claim-delete_claim, prepare-outcome, unprepare-outcome,
}
use kube_ovn_dra_driver.DeviceState.Actions.Recorded.{
  found, latest, found-add_nics, latest-other, IsKept, insert_claim-IsKept, delete_claim-IsKept,
  recorded, add_nics-some, restore_claims-found,
}

module _ {W : Type 0} (s : Settings) (host : Host W) where
  -- The store has the NICs that the checkpoint records, and no others.
  pub record InSync (st : State W) : Type 0 where
    pub claims : PreparedClaims
    pub store : NicStore
    pub on_disk : host.get_checkpoint st.world ≡ ok claims
    pub in_store : st.nic_store ≡ some store
    pub kept : IsKept claims
    pub same_nics :
        (pod claim iface : String)
        → find_nic store pod claim iface ≡ recorded (lookup_claim claim claims) pod claim iface none

  -- What happens to the state while the plugin runs.
  pub data Step : State W → State W → Type 0 where
    prepared :
        (claim : ResourceClaim) (ids : List ApiDevice) (st st' : State W)
        → prepare s host claim st ≡ (ok ids, st')
        → Step st st'
    unprepared :
        (uid : String) (st st' : State W) → unprepare s host uid st ≡ (ok tt, st') → Step st st'
    refreshed :
        (r : Result (Resources × Bool)) (st st' : State W)
        → refresh_devices s host st ≡ (r, st')
        → Step st st'

  pub data Run : State W → State W → Type 0 where
    done : (st : State W) → Run st st
    after : (st st' st'' : State W) → Run st st' → Step st' st'' → Run st st''

  pub refresh_devices-kept :
      (st : State W)
      → ((refresh_devices s host st).1.nic_store ≡ st.nic_store)
        × ((refresh_devices s host st).1.world ≡ st.world)
  unfolding refresh_devices
  refresh_devices-kept st = elim (Result-cases (host.enumerate st.world)) [
    | inr (x, e) ↦ rw (e, refresh_devices) (refl, refl)
    | inl (r, e) ↦ elim (Bool-cases (s.deep_equal r st.driver_resources)) [
      | inl t ↦ rw (e, t, refresh_devices) (refl, refl)
      | inr f ↦ rw (e, f, refresh_devices) (refl, refl)
    ]
  ]

  prepared-InSync :
      (uid : String) (ds : List PreparedDevice) (st st' : State W) (k : InSync st)
      → lookup_claim uid k.claims ≡ none
      → OfClaim uid ds
      → st'.nic_store ≡ add_nics ds st.nic_store
      → host.get_checkpoint st'.world ≡ ok (insert_claim uid ds k.claims)
      → InSync st'
  unfolding found recorded
  prepared-InSync uid ds st st' k z o n c =
      let (q, e) = add_nics-some ds k.store in
      record {
        claims = insert_claim uid ds k.claims;
        store = q;
        on_disk = c;
        in_store = n ∙ ap (add_nics ds) k.in_store ∙ e;
        kept = insert_claim-IsKept uid ds k.claims o k.kept;
        same_nics = λ pod claim iface.
            let now : find_nic q pod claim iface
                ≡ latest ds pod claim iface (find_nic k.store pod claim iface) =
              ap (λ o. found o pod claim iface) (sym e)
              ∙ found-add_nics ds k.store pod claim iface in
            let old = k.same_nics pod claim iface in
            elim (Bool-cases (uid == claim)) [
              | inl t ↦
                  let z' : lookup_claim claim k.claims ≡ none =
                    subst (λ u. lookup_claim u k.claims ≡ none) ((eq_iff uid claim).0 t) z in
                  rw (lookup_claim-insert_claim, t)
                    (now
                      ∙ ap (latest ds pod claim iface)
                          (old ∙ ap (λ r. recorded r pod claim iface none) z'))
              | inr f ↦
                  rw (lookup_claim-insert_claim, f)
                    (now
                      ∙ latest-other uid claim ds pod iface (find_nic k.store pod claim iface) o
                          (λ same. cc (f, (eq_iff uid claim).1 same))
                      ∙ old)
            ];
      }

  unprepared-InSync :
      (uid : String) (st st' : State W) (k : InSync st)
      → st'.nic_store ≡ elim st.nic_store [ none ↦ none | some q ↦ some (remove_claim q uid) ]
      → host.get_checkpoint st'.world ≡ ok (delete_claim uid k.claims)
      → InSync st'
  unfolding recorded
  unprepared-InSync uid st st' k n c = record {
    claims = delete_claim uid k.claims;
    store = remove_claim k.store uid;
    on_disk = c;
    in_store = n ∙ rw k.in_store refl;
    kept = delete_claim-IsKept uid k.claims k.kept;
    same_nics = λ pod claim iface. ground (
      arith,
      find_nic-remove_claim k.store uid pod claim iface,
      lookup_claim-delete_claim uid claim k.claims,
      k.same_nics pod claim iface,
    );
  }

  moved-InSync :
      (st st' : State W) (k : InSync st)
      → st'.nic_store ≡ st.nic_store
      → st'.world ≡ st.world
      → InSync st'
  moved-InSync st st' k n w = record {
    claims = k.claims;
    store = k.store;
    on_disk = rw w k.on_disk;
    in_store = n ∙ k.in_store;
    kept = k.kept;
    same_nics = k.same_nics;
  }

  pub Step-InSync : IsHost host → (st st' : State W) → Step st st' → InSync st → InSync st'
  Step-InSync laws st st' (prepared claim ids _ _ h) k =
      let (p, e, (ds, i, cases)) = prepare-outcome s host laws claim st st' ids h in
      let same : p ≡ k.claims = ok-injective (sym e ∙ k.on_disk) in
      elim cases [
        | inl (z, stays) ↦ subst InSync (sym stays) k
        | inr (z, o, n, c) ↦
            prepared-InSync claim.uid ds st st' k (rw⁻¹ same z) o n
              (c ∙ ap (λ q. ok (insert_claim claim.uid ds q)) same)
      ]
  Step-InSync laws st st' (unprepared uid _ _ h) k =
      elim (unprepare-outcome s host laws uid k.claims st st' k.on_disk h) [
        | inl (z, stays) ↦ subst InSync (sym stays) k
        | inr (ds, z, n, c) ↦ unprepared-InSync uid st st' k n c
      ]
  Step-InSync laws st st' (refreshed r _ _ h) k =
      let (n, w) = refresh_devices-kept st in
      moved-InSync st st' k (ap (λ q. q.1.nic_store) (sym h) ∙ n) (ap (λ q. q.1.world) (sym h) ∙ w)

  Run-InSync : IsHost host → (st st' : State W) → Run st st' → InSync st → InSync st'
  Run-InSync laws st st' (done _) k = k
  Run-InSync laws st st' (after _ mid _ run step) k =
      Step-InSync laws mid st' step (Run-InSync laws st mid run k)

  -- The state of a plugin that starts on a node with no claim prepared.
  pub record IsFresh (st : State W) : Type 0 where
    pub empty_disk : host.get_checkpoint st.world ≡ ok []
    pub empty_store : st.nic_store ≡ some new_nic_store

  pub IsFresh-InSync : (st : State W) → IsFresh st → InSync st
  unfolding recorded lookup_claim find_nic
  IsFresh-InSync st f = record {
    claims = [];
    store = new_nic_store;
    on_disk = f.empty_disk;
    in_store = f.empty_store;
    kept = tt;
    same_nics = λ pod claim iface. unfold specs in refl;
  }

  -- On a host that reads back the checkpoint written last (IsHost), a restart forgets no NIC and
  -- invents none: after any run of Prepares and Unprepares that succeed and of refreshes, from a
  -- fresh start, restoreNICs on an empty store succeeds, and then finds under each pod, claim and
  -- interface name exactly what the store found before the restart.
  pub restart_keeps_nics :
      (laws : IsHost host) (st st' : State W) (pod claim iface : String)
      → IsFresh st
      → Run st st'
      → let r = restore_nics s host (record st' { nic_store = some new_nic_store }) in
        (r.0 ≡ ok tt) × (found r.1.nic_store pod claim iface ≡ found st'.nic_store pod claim iface)
  unfolding restore_nics found find_nic specs
  restart_keeps_nics laws st st' pod claim iface f run =
      let k = Run-InSync laws st st' run (IsFresh-InSync st f) in
      rw (k.on_disk, k.in_store)
        (
          refl,
          restore_claims-found s host k.claims new_nic_store pod claim iface k.kept
              ∙ sym (k.same_nics pod claim iface),
        )
