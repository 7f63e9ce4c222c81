-- ===== src/DeviceState/Start/Opened.antt =====
-- What NewDeviceState of cmd/kube-ovn-dra-kubeletplugin/state.go does with the checkpoint.
use kube_ovn_dra_driver.Prelude.{
  String, ◌==◌, Bool, true, false, ◌||◌, Option, none, some, List, [], ◌∷◌, ◌≡◌, refl, sym, ap, ◌∙◌,
  arith, Error, Result, ok, err,
}
use kube_ovn_dra_driver.Exec.{Exec, wrapping-eq-ok}
use kube_ovn_dra_driver.Exec.Frames.{IsPreorder, Frames}
use kube_ovn_dra_driver.Exec.Sealed.{frames_rules, Frames-bind, Frames-wrapping, wrapping, ◌>>◌}
use kube_ovn_dra_driver.Store.{NicStore, new_nic_store, specs}
use kube_ovn_dra_driver.Store.Lookup.{find_nic}
use kube_ovn_dra_driver.Cdi.{CdiSpec}
use kube_ovn_dra_driver.DeviceState.Host.{
  PreparedClaims, Settings, Host, IsHost, State, lookup_claim,
}
use kube_ovn_dra_driver.DeviceState.Actions.{restore_claims, restore_nics}
use kube_ovn_dra_driver.DeviceState.Devices.{call}
use kube_ovn_dra_driver.DeviceState.Actions.Outcome.{call-eq-ok}
use kube_ovn_dra_driver.DeviceState.Actions.Recorded.{
  found, recorded, IsKept, add_nics-some, restore_claims-found,
}
use kube_ovn_dra_driver.DeviceState.Actions.Restart.{InSync}
use kube_ovn_dra_driver.DeviceState.Start.{
  checkpoint_file, Setup, act, observe, new_cdi_handler, write_named, create_common_spec_file,
  prepare_host, open_checkpoint,
}

abbrev pub has_name : List String → Bool
has_name [] = false
has_name (c ∷ cs) = (c == checkpoint_file) || has_name cs

-- What the plugin relies on when it starts: none of these calls touches the checkpoint, and a
-- checkpoint that can be read is listed.
pub record IsSetup {W : Type 0} (setup : Setup W) (host : Host W) : Type 0 where
  pub get-new_cache : (w : W) → host.get_checkpoint (setup.new_cache w).1 ≡ host.get_checkpoint w
  pub get-new_manager :
      (w : W) → host.get_checkpoint (setup.new_manager w).1 ≡ host.get_checkpoint w
  pub listed :
      (w : W) (p : PreparedClaims) (names : List String)
      → host.get_checkpoint w ≡ ok p
      → setup.list_checkpoints w ≡ ok names
      → has_name names ≡ true

pub found-some :
    (q : NicStore) (pod claim iface : String)
    → find_nic q pod claim iface ≡ found (some q) pod claim iface
unfolding found
found-some q pod claim iface = refl

module _ {W : Type 0} (setup : Setup W) (s : Settings) (host : Host W) where
  observe-Frames :
      {R : W → W → Type 0} → IsPreorder R → {A : Type 0} (f : W → Result A) → Frames R (observe f)
  unfolding observe
  observe-Frames pre f = record { at = pre.refl_at }

  -- What the calls of the outside world keep, NewDeviceState keeps up to the checkpoints.
  module _ {R : W → W → Type 0} (pre : IsPreorder R)
      (writes : (spec : CdiSpec) (name : String) → Frames R (act (host.write_spec spec name)))
      (caches : Frames R (act setup.new_cache)) (manages : Frames R (act setup.new_manager)) where
    write_named-Frames : (spec : CdiSpec × String) → Frames R (write_named setup s host spec)
    unfolding write_named
    write_named-Frames (spec, name) = writes spec name

    create_common_spec_file-Frames : Frames R (create_common_spec_file setup s host)
    unfolding create_common_spec_file
    create_common_spec_file-Frames = search (frames_rules, pre, write_named-Frames)

    then_kept :
        {A : Type 0} (text : String) (m : Exec W (Unit {0})) (n : Exec W A)
        → Frames R m
        → Frames R n
        → Frames R (wrapping text [] m >> n)
    then_kept text m n km kn = Frames-bind pre _ _ (Frames-wrapping text [] m km) (λ u. kn)

    prepare_host-Frames : Frames R (prepare_host setup s host)
    unfolding prepare_host new_cdi_handler
    prepare_host-Frames =
        Frames-bind pre _ _ (search (frames_rules, observe-Frames pre)) (λ resources.
          then_kept _ _ _ (search (frames_rules, caches)) (
            then_kept _ _ _ create_common_spec_file-Frames
              (then_kept _ _ _ manages (search (frames_rules, pre)))))

  -- The checkpoint reads as before.
  abbrev Same : W → W → Type 0
  Same w w' = host.get_checkpoint w' ≡ host.get_checkpoint w

  act-Same :
      (f : W → Option Error × W)
      → ((w : W) → host.get_checkpoint (f w).1 ≡ host.get_checkpoint w)
      → Frames Same (act f)
  unfolding act
  act-Same f k = record { at = k }

  pub prepare_host-kept :
      IsHost host
      → IsSetup setup host
      → (w : W) → host.get_checkpoint (prepare_host setup s host w).1 ≡ host.get_checkpoint w
  prepare_host-kept laws sets w =
      (prepare_host-Frames {R = Same}
          (record { refl_at = λ w. refl; trans_at = λ w u v a b. b ∙ a })
          (λ spec name. act-Same (host.write_spec spec name) (laws.get-write_spec spec name))
          (act-Same setup.new_cache sets.get-new_cache)
          (act-Same setup.new_manager sets.get-new_manager)).at
        w

  pub open_checkpoint-listed :
      (names : List String) (st : State W)
      → has_name names ≡ true
      → open_checkpoint setup s host names st ≡ restore_nics s host st
  unfolding open_checkpoint
  open_checkpoint-listed [] st h = cc h
  open_checkpoint-listed (c ∷ cs) st h = ground (arith, open_checkpoint-listed cs st)

  pub open_checkpoint-unlisted :
      (names : List String) (st : State W)
      → has_name names ≡ false
      → open_checkpoint setup s host names st ≡ open_checkpoint setup s host [] st
  unfolding open_checkpoint
  open_checkpoint-unlisted [] st h = refl
  open_checkpoint-unlisted (c ∷ cs) st h = ground (arith, open_checkpoint-unlisted cs st)

  restore_claims-some :
      (p : PreparedClaims) (store : NicStore)
      → (q : NicStore) × (restore_claims s host p (some store) ≡ some q)
  unfolding restore_claims
  restore_claims-some [] store = (store, refl)
  restore_claims-some ((uid, ds) ∷ p) store =
      let (q, e) = add_nics-some ds store in rw e (restore_claims-some p q)

  -- The state with the NICs of a checkpoint in its store.
  abbrev pub restored : PreparedClaims → State W → State W
  restored p st = record st { nic_store = restore_claims s host p (some new_nic_store) }

  pub restore_nics-known :
      (p : PreparedClaims) (st : State W)
      → st.nic_store ≡ some new_nic_store
      → host.get_checkpoint st.world ≡ ok p
      → restore_nics s host st ≡ (ok tt, restored p st)
  unfolding restore_nics
  restore_nics-known p st n c = ground (arith, n, c)

  none_recorded : (pod claim iface : String) → find_nic new_nic_store pod claim iface ≡ none
  unfolding find_nic specs
  none_recorded pod claim iface = refl

  pub found-restored :
      (p : PreparedClaims) (st : State W) (pod claim iface : String)
      → IsKept p
      → found (restored p st).nic_store pod claim iface
        ≡ recorded (lookup_claim claim p) pod claim iface none
  found-restored p st pod claim iface k =
      restore_claims-found s host p new_nic_store pod claim iface k
      ∙ ap (recorded (lookup_claim claim p) pod claim iface) (none_recorded pod claim iface)

  pub restored-InSync :
      (p : PreparedClaims) (st : State W)
      → host.get_checkpoint st.world ≡ ok p
      → IsKept p
      → InSync s host (restored p st)
  restored-InSync p st c k =
      let (q, e) = restore_claims-some p new_nic_store in
      record {
        claims = p;
        store = q;
        on_disk = c;
        in_store = e;
        kept = k;
        same_nics = λ pod claim iface.
            found-some q pod claim iface
            ∙ ap (λ o. found o pod claim iface) (sym e)
            ∙ found-restored p st pod claim iface k;
      }

  pub restore_nics-unread :
      (e : Error) (st st' : State W)
      → st.nic_store ≡ some new_nic_store
      → host.get_checkpoint st.world ≡ err e
      → ¬ (restore_nics s host st ≡ (ok tt, st'))
  unfolding restore_nics
  restore_nics-unread e st st' n c h = ground (arith, n, c, h)

  -- Where no checkpoint is listed, an empty one is written.
  pub open_checkpoint-new :
      (laws : IsHost host) (st st' : State W)
      → open_checkpoint setup s host [] st ≡ (ok tt, st')
      → ((host.create_checkpoint [] st.world).0 ≡ none)
        × (record st { world = (host.create_checkpoint [] st.world).1 } ≡ st')
  unfolding open_checkpoint
  open_checkpoint-new laws st st' h = call-eq-ok s host laws (host.create_checkpoint []) st st' (
      wrapping-eq-ok "unable to sync to checkpoint" [] (call (host.create_checkpoint [])) st st' tt
        h)
