-- ===== src/Witnesses/Commands.antt =====
-- The end of the publisher at a run that a signal ends while it publishes.
use kube_ovn_dra_driver.Prelude.{true, false, none, ◌≡◌, ◌⊎◌, refl, inl, inr}
use kube_ovn_dra_driver.Command.Leader.{
  stopped, exited, Election, campaign, elected, interrupts, ends, runs_out, exits, Runs, starts,
  steps, leading,
}
use kube_ovn_dra_driver.Command.Leader.Exits.{exit_is_explained}

abbrev led : Election
led = record campaign { phase = leading; publishing = true }

abbrev interrupted : Election
interrupted = record led { done = true; interrupted = true }

abbrev halted : Election
halted = record interrupted { phase = stopped; publishing = false }

abbrev gone : Election
gone = record halted { phase = exited none }

signalled : Runs gone
signalled =
    steps
      (steps
        (steps (steps (steps starts (elected campaign refl)) (interrupts led))
          (ends interrupted refl (inl refl)))
        (runs_out (record interrupted { publishing = false }) (inr refl) refl))
      (exits halted refl)

exit_is_explained_example : (gone.interrupted ≡ true) ⊎ (gone.lost ≡ true)
exit_is_explained_example = exit_is_explained signalled refl
