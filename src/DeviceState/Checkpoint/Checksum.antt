-- ===== src/DeviceState/Checkpoint/Checksum.antt =====
-- The checksum of the checkpoint of cmd/kube-ovn-dra-kubeletplugin/checkpoint.go: MarshalCheckpoint
-- against VerifyChecksum.
use mathlib.Core.Path.{subst}
use kube_ovn_dra_driver.Prelude.{
  ℕ, String, none, ◌≡◌, ◌≢◌, ◌↔◌, refl, ap, ok, Result, Result-cases, inl, inr,
}
use kube_ovn_dra_driver.DeviceState.Checkpoint.{
  Checkpoint, Format, with_checksum, marshal_checkpoint, verify_checksum,
}

module _ (f : Format)
    (verify_iff : (n : ℕ) (text : String)
      → (f.verify n text ≡ none) ↔ (n ≡ f.checksum_of text)) where
  -- Where Checksum.Verify compares with the checksum of the text: MarshalCheckpoint that returns a
  -- text leaves its receiver with the claims that it had, the text is that of the receiver as it is
  -- left, and VerifyChecksum accepts that receiver and leaves it as it is. With any other checksum
  -- VerifyChecksum refuses the same claims.
  pub marshalled_checkpoint_verifies :
      (c d : Checkpoint) (text : String)
      → marshal_checkpoint f c ≡ (ok text, d)
      → (d.v1 ≡ c.v1)
        × (f.marshal d ≡ ok text)
        × (verify_checksum f d ≡ (none, d))
        × ((n : ℕ) → n ≢ d.checksum → (verify_checksum f (with_checksum n d)).0 ≢ none)
  unfolding marshal_checkpoint verify_checksum
  marshalled_checkpoint_verifies c d text h = elim (Result-cases (f.marshal (with_checksum 0 c))) [
    | inr (x, e) ↦ absurd (cc (rw e at h))
    | inl (out, e) ↦ go out e (rw e at h)
  ]
    where
      go :
          (out : String)
          → f.marshal (with_checksum 0 c) ≡ ok out
          → ◌≡◌ {A = Result String × Checkpoint}
              (f.marshal (with_checksum (f.checksum_of out) c), with_checksum (f.checksum_of out) c)
              (ok text, d)
          → (d.v1 ≡ c.v1)
            × (f.marshal d ≡ ok text)
            × (verify_checksum f d ≡ (none, d))
            × ((n : ℕ) → n ≢ d.checksum → (verify_checksum f (with_checksum n d)).0 ≢ none)
      go out e q =
          let is : with_checksum (f.checksum_of out) c ≡ d =
            ap (λ (r : Result String × Checkpoint). r.1) q in
          subst
            (λ (x : Checkpoint).
              (x.v1 ≡ c.v1)
              × (f.marshal x ≡ ok text)
              × (verify_checksum f x ≡ (none, x))
              × ((n : ℕ) → n ≢ x.checksum → (verify_checksum f (with_checksum n x)).0 ≢ none))
            is
            (
              refl,
              ap (λ (r : Result String × Checkpoint). r.0) q,
              rw (e, (verify_iff (f.checksum_of out) out).1 refl) refl,
              λ n other v. other ((verify_iff n out).0 (rw e at v)),
            )
