-- ===== src/DeviceState/Start/Lifetime.antt =====
-- The NICs that the plugin of cmd/kube-ovn-dra-kubeletplugin/state.go knows of, over all its restarts.
use kube_ovn_dra_driver.Prelude.{
  String, Option, none, some, List, [], ◌≡◌, refl, sym, ap, ◌∙◌, inl, inr, arith, Error, Result, ok,
  err, Bool-cases, Result-cases,
}
use mathlib.Core.Path.{subst}
use kube_ovn_dra_driver.Store.{NicStore, new_nic_store}
use kube_ovn_dra_driver.DeviceState.Host.{
  PreparedClaims, Resources, Settings, Host, IsHost, State, lookup_claim,
}
use kube_ovn_dra_driver.DeviceState.Actions.Recorded.{found, recorded}
use kube_ovn_dra_driver.DeviceState.Actions.Restart.{Step, Step-InSync, InSync, IsFresh-InSync}
use kube_ovn_dra_driver.DeviceState.Start.{
  Setup, prepare_host, initial, open_checkpoint, finished, started, with_state, new_device_state,
}
use kube_ovn_dra_driver.DeviceState.Start.Opened.{
  has_name, IsSetup, found-some, prepare_host-kept, open_checkpoint-listed,
  open_checkpoint-unlisted, restored, restore_nics-unread, open_checkpoint-new, restore_nics-known,
  found-restored, restored-InSync,
}

module _ {W : Type 0} (setup : Setup W) (s : Settings) (host : Host W) where
  -- Where the checkpoints are listed, NewDeviceState is what it does with them.
  with_state-opens :
      (names : List String) (st : State W)
      → setup.list_checkpoints st.world ≡ ok names
      → with_state setup s host st ≡ finished setup s host (open_checkpoint setup s host names st)
  unfolding with_state
  with_state-opens names st l = rw (l, with_state) refl

  new_device_state-opens :
      (store : Option NicStore) (r : Resources) (w w₁ : W) (names : List String)
      → prepare_host setup s host w ≡ (ok r, w₁)
      → setup.list_checkpoints w₁ ≡ ok names
      → new_device_state setup s host store w
        ≡ finished setup s host
            (open_checkpoint setup s host names (initial setup s host r store w₁))
  unfolding new_device_state
  new_device_state-opens store r w w₁ names p l =
      ap (started setup s host store) p ∙ with_state-opens names (initial setup s host r store w₁) l

  finished-eq-ok :
      (r : Result (Unit {0}) × State W) (st : State W) (w : W)
      → finished setup s host r ≡ (ok st, w)
      → r ≡ (ok tt, st)
  finished-eq-ok (ok u, t) st w h = cc h
  finished-eq-ok (err e, t) st w h = cc h

  -- Each call of a start succeeded, and the checkpoint was opened.
  abbrev IsOpened : Option NicStore → W → State W → Type 0
  IsOpened store w st =
      (r : Resources) × (w₁ : W) × (names : List String) × (prepare_host setup s host w
        ≡ (ok r, w₁))
      × (setup.list_checkpoints w₁ ≡ ok names)
      × (open_checkpoint setup s host names (initial setup s host r store w₁) ≡ (ok tt, st))

  with_state-eq-ok :
      (st t : State W) (w : W)
      → with_state setup s host st ≡ (ok t, w)
      → (names : List String) × (setup.list_checkpoints st.world ≡ ok names)
        × (open_checkpoint setup s host names st ≡ (ok tt, t))
  unfolding with_state
  with_state-eq-ok st t w h = elim (Result-cases (setup.list_checkpoints st.world)) [
    | inr (x, e) ↦ absurd (ground (arith, h, e))
    | inl (names, e) ↦ (names, e, finished-eq-ok _ t w (sym (with_state-opens names st e) ∙ h))
  ]

  started-IsOpened :
      (store : Option NicStore) (w w' : W) (st : State W) (r : Result Resources × W)
      → prepare_host setup s host w ≡ r
      → started setup s host store r ≡ (ok st, w')
      → IsOpened store w st
  started-IsOpened store w w' st (err e, w₁) p h = cc h
  started-IsOpened store w w' st (ok r, w₁) p h =
      let (names, l, o) = with_state-eq-ok (initial setup s host r store w₁) st w' h in
      (r, w₁, names, p, l, o)

  new_device_state-IsOpened :
      (store : Option NicStore) (w w' : W) (st : State W)
      → new_device_state setup s host store w ≡ (ok st, w')
      → IsOpened store w st
  unfolding new_device_state
  new_device_state-IsOpened store w w' st h =
      started-IsOpened store w w' st (prepare_host setup s host w) refl h

  -- The life of the plugin on a node: a first start where no checkpoint can be read, then what changes
  -- its state, and restarts, which begin with an empty NIC store on the world that was left.
  pub data Life : State W → Type 0 where
    born :
        (e : Error) (w w' : W) (st : State W)
        → host.get_checkpoint w ≡ err e
        → new_device_state setup s host (some new_nic_store) w ≡ (ok st, w')
        → Life st
    lives : (st st' : State W) → Life st → Step s host st st' → Life st'
    reborn :
        (st st' : State W) (w' : W)
        → Life st
        → new_device_state setup s host (some new_nic_store) st.world ≡ (ok st', w')
        → Life st'

  found-InSync :
      (st : State W) (pod claim iface : String) (k : InSync s host st)
      → found st.nic_store pod claim iface
        ≡ recorded (lookup_claim claim k.claims) pod claim iface none
  found-InSync st pod claim iface k =
      ap (λ o. found o pod claim iface) k.in_store
      ∙ sym (found-some k.store pod claim iface)
      ∙ k.same_nics pod claim iface

  module _ (laws : IsHost host) (sets : IsSetup setup host) where
    kept_by :
        (w w₁ : W) (r : Resources)
        → prepare_host setup s host w ≡ (ok r, w₁)
        → host.get_checkpoint w₁ ≡ host.get_checkpoint w
    kept_by w w₁ r p =
        ap (λ (q : Result Resources × W). host.get_checkpoint q.1) (sym p)
        ∙ prepare_host-kept setup s host laws sets w

    -- A checkpoint that reads is opened, and its NICs are restored.
    open_known :
        (names : List String) (p : PreparedClaims) (st : State W)
        → st.nic_store ≡ some new_nic_store
        → host.get_checkpoint st.world ≡ ok p
        → setup.list_checkpoints st.world ≡ ok names
        → open_checkpoint setup s host names st ≡ (ok tt, restored setup s host p st)
    open_known names p st n c l =
        open_checkpoint-listed setup s host names st (sets.listed st.world p names c l)
        ∙ restore_nics-known setup s host p st n c

    -- A start on a checkpoint that reads has the state that restoreNICs makes of it.
    pub reopened :
        (p : PreparedClaims) (w w' : W) (st : State W)
        → new_device_state setup s host (some new_nic_store) w ≡ (ok st, w')
        → host.get_checkpoint w ≡ ok p
        → (i : State W) × (host.get_checkpoint i.world ≡ ok p) × (st ≡ restored setup s host p i)
    reopened p w w' st h k =
        let (r, w₁, names, e, l, o) = new_device_state-IsOpened (some new_nic_store) w w' st h in
        let i = initial setup s host r (some new_nic_store) w₁ in
        let c = kept_by w w₁ r e ∙ k in
        let same = sym o ∙ open_known names p i refl c l in
        (i, c, ap (λ (q : Result (Unit {0}) × State W). q.1) same)

    reborn-InSync :
        (st st' : State W) (w' : W)
        → new_device_state setup s host (some new_nic_store) st.world ≡ (ok st', w')
        → InSync s host st
        → InSync s host st'
    reborn-InSync st st' w' h k =
        let (i, c, same) = reopened k.claims st.world w' st' h k.on_disk in
        subst (InSync s host) (sym same) (restored-InSync setup s host k.claims i c k.kept)

    -- Where no checkpoint can be read, an empty one is written.
    unread-InSync :
        (e : Error) (names : List String) (st st' : State W)
        → st.nic_store ≡ some new_nic_store
        → host.get_checkpoint st.world ≡ err e
        → open_checkpoint setup s host names st ≡ (ok tt, st')
        → InSync s host st'
    unread-InSync e names st st' n c o = elim (Bool-cases (has_name names)) [
      | inl y ↦ absurd (
          restore_nics-unread setup s host e st st' n c
            (sym (open_checkpoint-listed setup s host names st y) ∙ o))
      | inr f ↦
          (let (a, same) =
              open_checkpoint-new setup s host laws st st'
                (sym (open_checkpoint-unlisted setup s host names st f) ∙ o) in
            IsFresh-InSync s host st' (record {
              empty_disk =
                  ap (λ (t : State W). host.get_checkpoint t.world) (sym same)
                  ∙ laws.read_back [] st.world a;
              empty_store = ap (λ (t : State W). t.nic_store) (sym same) ∙ n;
            }))
    ]

    born-InSync :
        (e : Error) (w w' : W) (st : State W)
        → host.get_checkpoint w ≡ err e
        → new_device_state setup s host (some new_nic_store) w ≡ (ok st, w')
        → InSync s host st
    born-InSync e w w' st c h =
        let (r, w₁, names, p, l, o) = new_device_state-IsOpened (some new_nic_store) w w' st h in
        unread-InSync e names (initial setup s host r (some new_nic_store) w₁) st refl
          (kept_by w w₁ r p ∙ c) o

    Life-InSync : {st : State W} → Life st → InSync s host st
    Life-InSync (born e w w' st c h) = born-InSync e w w' st c h
    Life-InSync (lives st st' l m) = Step-InSync s host laws st st' m (Life-InSync l)
    Life-InSync (reborn st st' w' l h) = reborn-InSync st st' w' h (Life-InSync l)

    -- The plugin forgets no NIC and invents none, over all its restarts: at any time after a first
    -- start on a node where no checkpoint could be read, and Prepares and Unprepares that succeeded,
    -- refreshes and restarts, NewDeviceState starts with an empty NIC store and succeeds where its
    -- calls for the host and the list of checkpoints do, and its NIC store then has under each pod,
    -- claim and interface name exactly the NIC that the plugin had before.
    pub restarts_keep_nics :
        (st : State W) (r : Resources) (w₁ : W) (names : List String)
        → Life st
        → prepare_host setup s host st.world ≡ (ok r, w₁)
        → setup.list_checkpoints w₁ ≡ ok names
        → (st' : State W) × (new_device_state setup s host (some new_nic_store) st.world
            ≡ (ok st', w₁))
          × ((pod claim iface : String)
              → found st'.nic_store pod claim iface ≡ found st.nic_store pod claim iface)
    restarts_keep_nics st r w₁ names life p l =
        let k = Life-InSync life in
        let i = initial setup s host r (some new_nic_store) w₁ in
        let c = kept_by st.world w₁ r p ∙ k.on_disk in
        let opened = open_known names k.claims i refl c l in
        (
          restored setup s host k.claims i,
          new_device_state-opens (some new_nic_store) r st.world w₁ names p l
              ∙ ap (finished setup s host) opened,
          λ pod claim iface.
              found-restored setup s host k.claims i pod claim iface k.kept
              ∙ sym (found-InSync st pod claim iface k),
        )
