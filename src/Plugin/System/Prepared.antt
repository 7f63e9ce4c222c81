-- ===== src/Plugin/System/Prepared.antt =====
-- A claim that Prepare of cmd/kube-ovn-dra-kubeletplugin/state.go prepared stays so, whatever the
-- plugin does but unprepare it.
use mathlib.Core.Path.{subst}
use kube_ovn_dra_driver.Prelude.{
  String, Bool, true, false, Option, none, some, List, ◌≡◌, ◌≢◌, refl, sym, ap, ◌∙◌, inl, inr,
  arith, Error, ok, eq_iff, ok-injective,
}
use kube_ovn_dra_driver.Store.{NicStore, Spec, specs, new_nic_store}
use kube_ovn_dra_driver.Store.Lookup.{find_nic}
use kube_ovn_dra_driver.Sandbox.Rollback.{Call}
use kube_ovn_dra_driver.Claim.{ResourceClaim}
use kube_ovn_dra_driver.Cdi.{ApiDevice, PreparedDevice}
use kube_ovn_dra_driver.DeviceState.Host.{
  PreparedClaims, Settings, Host, IsHost, State, lookup_claim, insert_claim,
}
use kube_ovn_dra_driver.DeviceState.Parts.{add_nics}
use kube_ovn_dra_driver.DeviceState.Actions.{prepare}
use kube_ovn_dra_driver.DeviceState.Devices.{get_devices}
use kube_ovn_dra_driver.DeviceState.Actions.Outcome.{lookup_claim-insert_claim, prepare-outcome}
use kube_ovn_dra_driver.DeviceState.Actions.Recorded.{
  found, latest, latest-some, recorded, found-add_nics, add_nics-some, IsKept, insert_claim-IsKept,
}
use kube_ovn_dra_driver.DeviceState.Actions.Holds.{IsAtomic, Holds}
use kube_ovn_dra_driver.DeviceState.Actions.Holds.Methods.{
  prepare-Holds, unprepare-Holds, refresh_devices-Holds,
}
use kube_ovn_dra_driver.DeviceState.Start.{Setup, new_device_state}
use kube_ovn_dra_driver.DeviceState.Start.Opened.{IsSetup, restored-InSync}
use kube_ovn_dra_driver.DeviceState.Start.Lifetime.{reopened}
use kube_ovn_dra_driver.Plugin.Driver.{prepare_resource_claim, unprepare_resource_claim}
use kube_ovn_dra_driver.Plugin.System.{
  System, Moves, prepares, unprepares, refreshes, connection, reconnects, restarts, Runs, here,
  next,
}
use kube_ovn_dra_driver.Plugin.System.SameNics.{Step-SameNics}

module _ {W : Type 0} (setup : Setup W) (s : Settings) (host : Host W)
    (answer : List Call → Call → Option Error) (waits : Bool) where
  -- A Prepare that succeeds on a claim that is not in the checkpoint.
  pub prepared-Holds :
      (laws : IsHost host) (claim : ResourceClaim) (p : PreparedClaims) (store : NicStore)
      (st st' : State W) (ids : List ApiDevice)
      → host.get_checkpoint st.world ≡ ok p
      → IsKept p
      → lookup_claim claim.uid p ≡ none
      → st.nic_store ≡ some store
      → prepare s host claim st ≡ (ok ids, st')
      → (ds : List PreparedDevice) × (ids ≡ get_devices ds) × Holds host claim.uid ds st'
  unfolding found
  prepared-Holds laws claim p store st st' ids c k z i h =
      let (p', c', (ds, e, cases)) = prepare-outcome s host laws claim st st' ids h in
      let same : p' ≡ p = ok-injective (sym c' ∙ c) in
      elim cases [
        | inl (z', _) ↦ absurd (cc (z', z, same))
        | inr (_, o, n, d) ↦
            let (q, f) = add_nics-some ds store in
            (
              ds,
              e,
              record {
                claims = insert_claim claim.uid ds p;
                on_disk = d ∙ ap (λ r. ok (insert_claim claim.uid ds r)) same;
                good = record {
                  kept = insert_claim-IsKept claim.uid ds p o k;
                  entry = ground (
                    arith,
                    lookup_claim-insert_claim claim.uid claim.uid ds p,
                    eq_iff claim.uid claim.uid,
                  );
                };
                store = q;
                in_store = n ∙ ap (add_nics ds) i ∙ f;
                nics = λ pod iface l.
                    ap (λ r. found r pod claim.uid iface) (sym f)
                    ∙ found-add_nics ds store pod claim.uid iface
                    ∙ latest-some ds pod claim.uid iface none (find_nic store pod claim.uid iface)
                        (λ x. cc x) l;
              },
            )
      ]

  module _ (laws : IsHost host) (atomic : IsAtomic host) (sets : IsSetup setup host) (uid : String)
      (ds : List PreparedDevice) where
    restarted-Holds :
        (st st' : State W) (w' : W)
        → new_device_state setup s host (some new_nic_store) st.world ≡ (ok st', w')
        → Holds host uid ds st
        → Holds host uid ds st'
    unfolding recorded
    restarted-Holds st st' w' h k =
        let (i, c, same) = reopened setup s host laws sets k.claims st.world w' st' h k.on_disk in
        let r = restored-InSync setup s host k.claims i c k.good.kept in
        let agree : r.claims ≡ k.claims = ok-injective (sym r.on_disk ∙ c) in
        subst (Holds host uid ds) (sym same) (record {
          claims = k.claims;
          on_disk = c;
          good = k.good;
          store = r.store;
          in_store = r.in_store;
          nics = λ pod iface l.
              r.same_nics pod uid iface
              ∙ ap (λ q. recorded (lookup_claim uid q) pod uid iface none) agree
              ∙ ap (λ o. recorded o pod uid iface none) k.good.entry
              ∙ l;
        })

    -- Prepare behind the test of the driver.
    prepare_resource_claim-Holds :
        (ready : Bool) (claim : ResourceClaim) (st : State W)
        → Holds host uid ds st
        → Holds host uid ds (prepare_resource_claim s host (some ready) claim st).1
    unfolding prepare_resource_claim
    prepare_resource_claim-Holds false claim st k = k
    prepare_resource_claim-Holds true claim st k =
        prepare-Holds s host laws atomic uid ds claim st k

    unprepare_resource_claim-Holds :
        (c : String) (st : State W)
        → c ≢ uid
        → Holds host uid ds st
        → Holds host uid ds (unprepare_resource_claim s host c st).1
    unfolding unprepare_resource_claim
    unprepare_resource_claim-Holds c st other k =
        unprepare-Holds s host laws atomic uid ds c st other k

    -- The marks of the NIC store change.
    marked-Holds :
        (st : State W) (p q : NicStore)
        → st.nic_store ≡ some p
        → q.by_pod ≡ p.by_pod
        → Holds host uid ds st
        → Holds host uid ds (record st { nic_store = some q })
    unfolding find_nic specs
    marked-Holds st p q i b k = record {
      claims = k.claims;
      on_disk = k.on_disk;
      good = k.good;
      store = q;
      in_store = refl;
      nics = λ pod iface l.
          let same : k.store ≡ p = cc (i, k.in_store) in rw (b) (rw⁻¹ same (k.nics pod iface l));
    }

    Moves-Holds :
        {t u : System W}
        → Moves setup s host answer waits uid t u
        → Holds host uid ds t.state
        → Holds host uid ds u.state
    Moves-Holds (prepares t claim) k =
        prepare_resource_claim-Holds t.nri.plugin.ready claim t.state k
    Moves-Holds (unprepares t c other) k = unprepare_resource_claim-Holds c t.state other k
    Moves-Holds (refreshes t) k = refresh_devices-Holds s host laws atomic uid ds t.state k
    Moves-Holds (connection t p d e m) k =
        marked-Holds t.state p d.plugin.store e (Step-SameNics answer m) k
    Moves-Holds (reconnects t e) k = k
    Moves-Holds (restarts t st w h) k = restarted-Holds t.state st w h k

    pub Runs-Holds :
        {t u : System W}
        → Runs setup s host answer waits uid t u
        → Holds host uid ds t.state
        → Holds host uid ds u.state
    Runs-Holds here k = k
    Runs-Holds (next r m) k = Moves-Holds m (Runs-Holds r k)

    pub held_found :
        (st : State W) (q : NicStore) (pod iface : String) (n : Spec)
        → Holds host uid ds st
        → st.nic_store ≡ some q
        → latest ds pod uid iface none ≡ some n
        → find_nic q pod uid iface ≡ some n
    held_found st q pod iface n k i l =
        let same : k.store ≡ q = cc (i, k.in_store) in rw⁻¹ same (k.nics pod iface l)
