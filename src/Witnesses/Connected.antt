-- ===== src/Witnesses/Connected.antt =====
-- The checksum of the checkpoint at a claim that is prepared.
use kube_ovn_dra_driver.Prelude.{
  ℕ, none, some, [], ◌∷◌, ◌≡◌, ◌≢◌, refl, arith, message, ok, nat_eq, if◌then◌else◌,
}
use kube_ovn_dra_driver.DeviceState.Checkpoint.{
  Checkpoint, Format, with_checksum, marshal_checkpoint, verify_checksum,
}
use kube_ovn_dra_driver.DeviceState.Checkpoint.Checksum.{marshalled_checkpoint_verifies}

-- A format whose texts say whether the checksum is zero.
abbrev small_format : Format
small_format = record {
  marshal = λ c. ok (if nat_eq c.checksum 0 then "unsigned" else "signed");
  unmarshal = λ text c. ok c;
  checksum_of = λ text. 7;
  verify = λ n text. if nat_eq n 7 then none else some (message "corrupt" []);
}

-- One claim without devices.
abbrev one_claim : Checkpoint
one_claim = record { checksum = 3; v1 = some (("u1", []) ∷ []) }

abbrev signed : Checkpoint
signed = with_checksum 7 one_claim

was_marshalled : marshal_checkpoint small_format one_claim ≡ (ok "signed", signed)
unfolding marshal_checkpoint
was_marshalled = refl

marshalled_checkpoint_verifies_example :
    (signed.v1 ≡ one_claim.v1)
    × (small_format.marshal signed ≡ ok "signed")
    × (verify_checksum small_format signed ≡ (none, signed))
    × ((n : ℕ) → n ≢ 7 → (verify_checksum small_format (with_checksum n signed)).0 ≢ none)
marshalled_checkpoint_verifies_example =
    marshalled_checkpoint_verifies small_format
      (λ n text. ((λ h. ground (arith, h)), (λ h. ground (arith, h)))) one_claim signed "signed"
      was_marshalled
