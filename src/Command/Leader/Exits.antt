-- ===== src/Command/Leader/Exits.antt =====
-- When runPublisher of cmd/kube-ovn-dra-kubeletplugin/publisher.go returns, and with what.
use kube_ovn_dra_driver.Prelude.{true, none, ◌≡◌, ◌≢◌, ◌⊎◌, refl, inl, inr, arith}
use kube_ovn_dra_driver.Command.Leader.{
  stopped, exited, Election, Step, elected, interrupts, loses, fails, cancels, ends, runs_out,
  exits, Runs, starts, steps,
}

abbrev Excused : Election → Type 0
Excused s = (s.interrupted ≡ true) ⊎ (s.lost ≡ true)

-- The context is done, the election has stopped, or runPublisher returned nil, only for a reason.
record IsExplained (s : Election) : Type 0 where
  cancelling_failed : s.cancelling ≡ true → s.failed ≢ none
  done_excused : s.done ≡ true → (s.failed ≢ none) ⊎ Excused s
  stopped_excused : s.phase ≡ stopped → (s.failed ≢ none) ⊎ Excused s
  exit_excused : s.phase ≡ exited none → Excused s

Step-IsExplained : {s t : Election} → Step s t → IsExplained s → IsExplained t
Step-IsExplained (elected s p) i = record {
  cancelling_failed = i.cancelling_failed;
  done_excused = i.done_excused;
  stopped_excused = λ e. cc e;
  exit_excused = λ e. cc e;
}
Step-IsExplained (interrupts s) i = record {
  cancelling_failed = i.cancelling_failed;
  done_excused = λ e. inr (inl refl);
  stopped_excused = λ e. inr (inl refl);
  exit_excused = λ e. inl refl;
}
Step-IsExplained (loses s p) i = record {
  cancelling_failed = i.cancelling_failed;
  done_excused = λ e. inr (inr refl);
  stopped_excused = λ e. inr (inr refl);
  exit_excused = λ e. inr refl;
}
Step-IsExplained (fails s e p d) i = record {
  cancelling_failed = λ c n. cc n;
  done_excused = λ x. inl (λ n. cc n);
  stopped_excused = λ x. inl (λ n. cc n);
  exit_excused = i.exit_excused;
}
Step-IsExplained (cancels s c) i = record {
  cancelling_failed = λ x. cc x;
  done_excused = λ x. inl (i.cancelling_failed c);
  stopped_excused = i.stopped_excused;
  exit_excused = i.exit_excused;
}
Step-IsExplained (ends s p r) i = record {
  cancelling_failed = i.cancelling_failed;
  done_excused = i.done_excused;
  stopped_excused = i.stopped_excused;
  exit_excused = i.exit_excused;
}
Step-IsExplained (runs_out s p d) i = record {
  cancelling_failed = i.cancelling_failed;
  done_excused = i.done_excused;
  stopped_excused = λ e. i.done_excused d;
  exit_excused = λ e. cc e;
}
Step-IsExplained (exits s p) i = record {
  cancelling_failed = i.cancelling_failed;
  done_excused = i.done_excused;
  stopped_excused = λ e. cc e;
  exit_excused =
      λ e. elim (i.stopped_excused p) [ inl n ↦ absurd (n (ground (arith, e))) | inr x ↦ x ];
}

Runs-IsExplained : {s : Election} → Runs s → IsExplained s
Runs-IsExplained starts = record {
  cancelling_failed = λ e. cc e;
  done_excused = λ e. cc e;
  stopped_excused = λ e. cc e;
  exit_excused = λ e. cc e;
}
Runs-IsExplained (steps r m) = Step-IsExplained m (Runs-IsExplained r)

-- runPublisher returns without an error only where it was interrupted or its lease was lost: an error
-- of publish that ends it is returned, whatever the order of the election and the goroutine.
pub exit_is_explained :
    {s : Election} → Runs s → s.phase ≡ exited none → (s.interrupted ≡ true) ⊎ (s.lost ≡ true)
exit_is_explained r e = (Runs-IsExplained r).exit_excused e
