-- ===== src/DeviceState/Actions/Holds.antt =====
-- What the methods of DeviceState in cmd/kube-ovn-dra-kubeletplugin/state.go, also where they fail, do
-- to a claim that is prepared, when they are called for other claims.
pub mod Methods
use kube_ovn_dra_driver.Prelude.{
  String, ◌==◌, Option, none, some, List, [], ◌∷◌, ◌≡◌, ◌≢◌, refl, sym, ap, ◌∙◌, inl, inr, arith,
  Error, Result, ok, err, Bool-cases, Option-cases, Result-cases, eq_iff, ok-injective,
  if◌then◌else◌,
}
use mathlib.Core.Path.{subst}
use kube_ovn_dra_driver.Exec.{Exec, pure, lift, wrapping, ◌>>=◌, ◌>>◌}
use kube_ovn_dra_driver.Exec.Frames.{IsPreorder, Frames, Frames-pure, Frames-wrapping, Frames-bind}
use kube_ovn_dra_driver.Claim.{ResourceClaim}
use kube_ovn_dra_driver.Store.{Spec, NicStore, remove_claim}
use kube_ovn_dra_driver.Store.Lookup.{find_nic, find_nic-remove_claim}
use kube_ovn_dra_driver.Cdi.{ApiDevice, PreparedDevice, claim_spec, versioned, claim_spec_name}
use kube_ovn_dra_driver.DeviceState.Host.{
  PreparedClaims, Settings, Host, IsHost, State, lookup_claim, insert_claim, delete_claim,
}
use kube_ovn_dra_driver.DeviceState.Parts.{add_nics}
use kube_ovn_dra_driver.DeviceState.Devices.{get_devices, call, prepare_devices}
use kube_ovn_dra_driver.DeviceState.Devices.Checkpointed.{
  OfClaim, Prepared, prepare_devices-Prepared,
}
use kube_ovn_dra_driver.DeviceState.Actions.{
  prepare_new, prepare, unprepare_with, unprepare, refresh_devices, create_claim_spec_file,
}
use kube_ovn_dra_driver.DeviceState.Actions.Outcome.{
  lookup_claim-insert_claim, lookup_claim-delete_claim, prepare-again, prepare-first, forgotten,
  unprepare-known, unprepare_with-first, unprepare_with-found,
}
use kube_ovn_dra_driver.DeviceState.Actions.Recorded.{
  found, latest, found-add_nics, latest-other, IsKept, insert_claim-IsKept, delete_claim-IsKept,
  add_nics-some,
}
use kube_ovn_dra_driver.DeviceState.Actions.Restart.{refresh_devices-kept}

-- The checkpoint is replaced as a whole: a write that fails leaves the one that was there.
pub record IsAtomic {W : Type 0} (host : Host W) : Type 0 where
  pub get-failed :
      (p : PreparedClaims) (w : W)
      → (host.create_checkpoint p w).0 ≢ none
      → host.get_checkpoint (host.create_checkpoint p w).1 ≡ host.get_checkpoint w

-- A checkpoint with an entry for the claim, of those that the plugin writes.
pub record IsGood (uid : String) (ds : List PreparedDevice) (p : PreparedClaims) : Type 0 where
  pub kept : IsKept p
  pub entry : lookup_claim uid p ≡ some ds

-- The claim is in the checkpoint with its devices, and their NICs are in the NIC store.
pub record Holds {W : Type 0} (host : Host W) (uid : String) (ds : List PreparedDevice)
    (st : State W) : Type 0 where
  pub claims : PreparedClaims
  pub on_disk : host.get_checkpoint st.world ≡ ok claims
  pub good : IsGood uid ds claims
  pub store : NicStore
  pub in_store : st.nic_store ≡ some store
  pub nics :
      (pod iface : String) {n : Spec}
      → latest ds pod uid iface none ≡ some n
      → find_nic store pod uid iface ≡ some n

module _ {W : Type 0} (s : Settings) (host : Host W) (laws : IsHost host) (atomic : IsAtomic host)
    (uid : String) (ds : List PreparedDevice) where
  abbrev pub Keeps : State W → State W → Type 0
  Keeps st st' = Holds host uid ds st → Holds host uid ds st'

  pub Keeps-IsPreorder : IsPreorder Keeps
  Keeps-IsPreorder = record { refl_at = λ st k. k; trans_at = λ st t u a b k. b (a k) }

  pub same-Holds :
      (st st' : State W)
      → host.get_checkpoint st'.world ≡ host.get_checkpoint st.world
      → st'.nic_store ≡ st.nic_store
      → Holds host uid ds st
      → Holds host uid ds st'
  same-Holds st st' c n k = record {
    claims = k.claims;
    on_disk = c ∙ k.on_disk;
    good = k.good;
    store = k.store;
    in_store = n ∙ k.in_store;
    nics = k.nics;
  }

  pub call-Frames :
      (f : W → Option Error × W)
      → ((w : W) → host.get_checkpoint (f w).1 ≡ host.get_checkpoint w)
      → Frames Keeps (call f)
  call-Frames f k = record { at = λ st. same-Holds st (call f st).1 (k st.world) refl }

  pub write-Frames :
      (p : PreparedClaims) → IsGood uid ds p → Frames Keeps (call (host.create_checkpoint p))
  write-Frames p g = record {
    at = λ st. elim (Option-cases (host.create_checkpoint p st.world).0) [
      | inl e ↦ λ k. record {
        claims = p;
        on_disk = laws.read_back p st.world e;
        good = g;
        store = k.store;
        in_store = k.in_store;
        nics = k.nics;
      }
      | inr (x, e) ↦
          same-Holds st (call (host.create_checkpoint p) st).1
            (atomic.get-failed p st.world (λ n. cc (e, n))) refl
    ];
  }

  pub get-create_claim_spec_file :
      (c : String) (ds' : List PreparedDevice) (w : W)
      → host.get_checkpoint (create_claim_spec_file s host c ds' w).1 ≡ host.get_checkpoint w
  unfolding create_claim_spec_file
  get-create_claim_spec_file c ds' w =
      elim (Result-cases (versioned s.cdi.tools (claim_spec s.cdi c ds'))) [
        | inr (x, e) ↦ rw (e, create_claim_spec_file) refl
        | inl (spec, e) ↦ rw (e, create_claim_spec_file) (laws.get-write_spec spec _ w)
      ]

  pub insert_claim-IsGood :
      (c : String) (ds' : List PreparedDevice) (p : PreparedClaims)
      → c ≢ uid
      → OfClaim c ds'
      → IsGood uid ds p
      → IsGood uid ds (insert_claim c ds' p)
  insert_claim-IsGood c ds' p other o g = record {
    kept = insert_claim-IsKept c ds' p o g.kept;
    entry = ground (arith, lookup_claim-insert_claim c uid ds' p, g.entry, eq_iff c uid, other);
  }

  pub delete_claim-IsGood :
      (c : String) (p : PreparedClaims)
      → c ≢ uid
      → IsGood uid ds p
      → IsGood uid ds (delete_claim c p)
  delete_claim-IsGood c p other g = record {
    kept = delete_claim-IsKept c p g.kept;
    entry = ground (arith, lookup_claim-delete_claim c uid p, g.entry, eq_iff c uid, other);
  }

  -- The NICs of another claim are added.
  pub added-Holds :
      (c : String) (ds' : List PreparedDevice) (st st' : State W)
      → c ≢ uid
      → OfClaim c ds'
      → host.get_checkpoint st'.world ≡ host.get_checkpoint st.world
      → st'.nic_store ≡ add_nics ds' st.nic_store
      → Holds host uid ds st
      → Holds host uid ds st'
  unfolding found
  added-Holds c ds' st st' other o d n k =
      let (q, e) = add_nics-some ds' k.store in
      record {
        claims = k.claims;
        on_disk = d ∙ k.on_disk;
        good = k.good;
        store = q;
        in_store = n ∙ ap (add_nics ds') k.in_store ∙ e;
        nics = λ pod iface h.
            ap (λ r. found r pod uid iface) (sym e)
            ∙ found-add_nics ds' k.store pod uid iface
            ∙ latest-other c uid ds' pod iface (find_nic k.store pod uid iface) o other
            ∙ k.nics pod iface h;
      }

  pub removed-Holds :
      (c : String) (st : State W)
      → c ≢ uid
      → Holds host uid ds st
      → Holds host uid ds (forgotten s host laws c st)
  removed-Holds c st other k = record {
    claims = k.claims;
    on_disk = k.on_disk;
    good = k.good;
    store = remove_claim k.store c;
    in_store = rw k.in_store refl;
    nics = λ pod iface h. ground (
      arith,
      find_nic-remove_claim k.store c pod uid iface,
      eq_iff c uid,
      other,
      k.nics pod iface h,
    );
  }
