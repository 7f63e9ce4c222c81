-- ===== src/Plugin/Refresh/Rest.antt =====
-- The loop of refresh.go comes to rest.
use kube_ovn_dra_driver.Prelude.{
  ℕ, zero, suc, ◌+◌, ◌≤◌, ◌<◌, Bool, true, false, ◌≡◌, refl, ◌⊎◌, inl, inr, arith,
}
use kube_ovn_dra_driver.Plugin.Refresh.{
  Refresher, Phase, waiting, delaying, refreshing, returned, Loop, Turns, wakes, fires, rounds,
}
use kube_ovn_dra_driver.Plugin.Refresh.Fresh.{IsResting}

-- How many turns are left.
energy : Phase → Bool → ℕ
energy waiting true = 3
energy waiting false = 0
energy delaying b = 2
energy refreshing true = 4
energy refreshing false = 1
energy returned b = 0

round_falls : (b : Bool) → energy waiting b < energy refreshing b
unfolding energy
round_falls true = omega arith
round_falls false = omega arith

energy-le : (p : Phase) (b : Bool) → energy p b ≤ 4
unfolding energy
energy-le waiting true = omega arith
energy-le waiting false = omega arith
energy-le delaying b = omega arith
energy-le refreshing true = omega arith
energy-le refreshing false = omega arith
energy-le returned b = omega arith

module _ {W R : Type 0} (f : Refresher W R) where
  -- Turns of the loop in a row, without a change between them.
  pub data Runs : ℕ → Loop W → Loop W → Type 0 where
    stays : (s : Loop W) → Runs zero s s
    goes : {n : ℕ} {s u v : Loop W} → Runs n s u → Turns f u v → Runs (suc n) s v

  Turns-falls : {s u : Loop W} → Turns f s u → energy u.phase u.pending < energy s.phase s.pending
  unfolding energy
  Turns-falls (wakes s p q) = rw (p, q) (omega arith)
  Turns-falls (fires s p) = rw p (omega arith)
  Turns-falls (rounds s p) = rw p (round_falls s.pending)

  Runs-falls :
      {n : ℕ} {s u : Loop W} → Runs n s u → n + energy u.phase u.pending ≤ energy s.phase s.pending
  Runs-falls (stays s) = omega arith
  Runs-falls (goes r m) = omega (arith, Runs-falls r, Turns-falls m)

  -- A loop that neither rests nor has returned can go on.
  goes_on :
      (s : Loop W) (p : Phase) (b : Bool)
      → s.phase ≡ p
      → s.pending ≡ b
      → IsResting s ⊎ (s.phase ≡ returned) ⊎ ((u : Loop W) × Turns f s u)
  goes_on s waiting true e e' = inr (inr (_, wakes s e e'))
  goes_on s waiting false e e' = inl (e, e')
  goes_on s delaying b e e' = inr (inr (_, fires s e))
  goes_on s refreshing b e e' = inr (inr (_, rounds s e))
  goes_on s returned b e e' = inr (inl e)

  -- Without further changes the loop comes to rest: from any state it makes at most four turns, and
  -- where it can make no more it waits with no trigger left, or has returned.
  pub loop_comes_to_rest :
      (n : ℕ) (s u : Loop W)
      → Runs n s u
      → (n ≤ 4) × (IsResting u ⊎ (u.phase ≡ returned) ⊎ ((v : Loop W) × Turns f u v))
  loop_comes_to_rest n s u r = (
    omega (arith, Runs-falls r, energy-le s.phase s.pending),
    goes_on u u.phase u.pending refl refl,
  )
