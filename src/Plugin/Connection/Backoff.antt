-- ===== src/Plugin/Connection/Backoff.antt =====
-- The delays between the connections of run in cmd/kube-ovn-dra-kubeletplugin/nri.go.
use kube_ovn_dra_driver.Prelude.{ℕ, ◌*◌, ◌^◌, Bool, ◌≡◌, refl, sym, ap, ◌∙◌, arith}
use native.Mathlib.Nat.{pow-succ'}
use kube_ovn_dra_driver.Store.{NicStore}
use kube_ovn_dra_driver.Sandbox.{Attacher}
use kube_ovn_dra_driver.Plugin.Connection.{
  Connection, Step, sync_called, sync_attached, sync_done, closed, run_returned, run_ended,
  context_done, ticked, sandbox_run, sandbox_stopped, Life, starts, steps, reconnects, min,
  max_backoff, longer,
}

longer-min : (p : ℕ) → longer (min p max_backoff) ≡ min (2 * p) max_backoff
longer-min p = ground arith

module _ {ℓ} {W : Type ℓ} {attacher : Attacher W} {waits : Bool} where
  backoff_kept : {c d : Connection W} → Step attacher waits c d → d.backoff ≡ c.backoff
  backoff_kept (sync_called c pods p s) = refl
  backoff_kept (sync_attached c sb sbs s) = refl
  backoff_kept (sync_done c s) = refl
  backoff_kept (closed c p) = refl
  backoff_kept (run_returned c p s) = refl
  backoff_kept (run_ended c p s) = refl
  backoff_kept (context_done c p) = refl
  backoff_kept (ticked c) = refl
  backoff_kept (sandbox_run c sb) = refl
  backoff_kept (sandbox_stopped c sb) = refl

  -- The delay after a connection that was made n times again is 2 to the n seconds, and thirty at most,
  -- whatever happened while the plugin was connected.
  pub backoff_doubles :
      {store : NicStore} {w : W} {n : ℕ} {c : Connection W}
      → Life attacher waits store w n c
      → c.backoff ≡ min (2 ^ n) max_backoff
  backoff_doubles starts = refl
  backoff_doubles (steps l m) = backoff_kept m ∙ backoff_doubles l
  backoff_doubles (reconnects {n = n} c l p) =
      ap longer (backoff_doubles l)
      ∙ longer-min (2 ^ n)
      ∙ ap (λ k. min k max_backoff) (sym (pow-succ' 2 n))
