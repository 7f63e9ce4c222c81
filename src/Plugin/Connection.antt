-- ===== src/Plugin/Connection.antt =====
-- The connection of the NRI plugin to the container runtime: startNRIPlugin, run and Ready of
-- cmd/kube-ovn-dra-kubeletplugin/nri.go, as a step relation with what the runtime calls meanwhile.
pub mod Backoff
use kube_ovn_dra_driver.Prelude.{
  ℕ, zero, suc, ◌*◌, Bool, true, false, Option, none, some, List, [], ◌∷◌, ◌≡◌, ◌⊎◌, ltb,
  if◌then◌else◌,
}
use kube_ovn_dra_driver.Store.{NicStore}
use kube_ovn_dra_driver.Sandbox.{Attacher}
use kube_ovn_dra_driver.Plugin.Runtime.{
  PodSandbox, NriPlugin, sync_sandbox, retry_failed, run_pod_sandbox, stop_pod_sandbox,
}

-- Where run stands: in stub.Run (`serving`, also after OnClose, until Run returns), in the select
-- behind it, or returned. Whether the plugin is connected is `ready` of the plugin, not this.
pub data Phase : Type 0 where
  serving reconnecting ended : Phase

-- `backoff` is in seconds. `syncing` holds the sandboxes that a Synchronize that runs has still to go
-- through.
pub record Connection {ℓ} (W : Type ℓ) : Type ℓ where
  pub phase : Phase
  pub backoff : ℕ
  pub syncing : Option (List PodSandbox)
  pub plugin : NriPlugin W

abbrev pub min_backoff : ℕ
min_backoff = 1

abbrev pub max_backoff : ℕ
max_backoff = 30

abbrev pub min : ℕ → ℕ → ℕ
min a b = if ltb b a then b else a

-- backoff = min(2*backoff, nriMaxBackoff)
abbrev pub longer : ℕ → ℕ
longer backoff = min (2 * backoff) max_backoff

-- The plugin that startNRIPlugin makes, with its goroutine run about to start.
abbrev pub start_nri_plugin {ℓ} : {W : Type ℓ} → NicStore → W → Connection W
start_nri_plugin store w = record {
  phase = serving;
  backoff = min_backoff;
  syncing = none;
  plugin = record { ready = false; failed = []; store = store; host = w };
}

abbrev pub set_ready {ℓ} : {W : Type ℓ} → Bool → NriPlugin W → NriPlugin W
set_ready b p = record p { ready = b }

-- `waits` is whether the stub's Run returns only when no call of the plugin runs any more.
module _ {ℓ} {W : Type ℓ} (attacher : Attacher W) (waits : Bool) where
  pub data Step : Connection W → Connection W → Type ℓ where
    -- Synchronize: it is called, goes through a sandbox, and returns.
    sync_called :
        (c : Connection W) (pods : List PodSandbox)
        → c.phase ≡ serving
        → c.syncing ≡ none
        → Step c (record c { syncing = some pods })
    sync_attached :
        (c : Connection W) (sb : PodSandbox) (sbs : List PodSandbox)
        → c.syncing ≡ some (sb ∷ sbs)
        → Step c (record c { syncing = some sbs; plugin = sync_sandbox attacher sb c.plugin })
    sync_done :
        (c : Connection W)
        → c.syncing ≡ some []
        → Step c (record c { syncing = none; plugin = set_ready true c.plugin })
    -- WithOnClose
    closed :
        (c : Connection W)
        → c.phase ≡ serving
        → Step c (record c { plugin = set_ready false c.plugin })
    -- stub.Run returns, and the context is not done, or it is.
    run_returned :
        (c : Connection W)
        → c.phase ≡ serving
        → (waits ≡ true → c.syncing ≡ none)
        → Step c (record c { phase = reconnecting; plugin = set_ready false c.plugin })
    run_ended :
        (c : Connection W)
        → c.phase ≡ serving
        → (waits ≡ true → c.syncing ≡ none)
        → Step c (record c { phase = ended; plugin = set_ready false c.plugin })
    context_done : (c : Connection W) → c.phase ≡ reconnecting → Step c (record c { phase = ended })
    -- A tick of retryFailed, and the calls for one sandbox.
    ticked : (c : Connection W) → Step c (record c { plugin = retry_failed attacher c.plugin })
    sandbox_run :
        (c : Connection W) (sb : PodSandbox)
        → Step c (record c { plugin = (run_pod_sandbox attacher sb c.plugin).1 })
    sandbox_stopped :
        (c : Connection W) (sb : PodSandbox)
        → Step c (record c { plugin = (stop_pod_sandbox attacher sb c.plugin).1 })

  -- The life of the plugin, with the number of times that it connected again.
  pub data Life (store : NicStore) (w : W) : ℕ → Connection W → Type ℓ where
    starts : Life store w zero (start_nri_plugin store w)
    steps : {n : ℕ} {c d : Connection W} → Life store w n c → Step c d → Life store w n d
    reconnects :
        {n : ℕ} (c : Connection W)
        → Life store w n c
        → c.phase ≡ reconnecting
        → Life store w (suc n) (record c { phase = serving; backoff = longer c.backoff })
