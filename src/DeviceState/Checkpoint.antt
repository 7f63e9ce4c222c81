-- ===== src/DeviceState/Checkpoint.antt =====
-- cmd/kube-ovn-dra-kubeletplugin/checkpoint.go: the checkpoint as the checkpoint manager of the
-- kubelet writes and reads it. encoding/json and the checksum are the record Format.
pub mod Checksum
use kube_ovn_dra_driver.Prelude.{ℕ, String, Option, none, some, List, [], Error, Result, ok, err}
use kube_ovn_dra_driver.DeviceState.Host.{PreparedClaims}

-- The pointer V1 may be nil.
pub record Checkpoint : Type 0 where
  pub checksum : ℕ
  pub v1 : Option PreparedClaims

pub record Format : Type 0 where
  pub marshal : Checkpoint → Result String
  -- json.Unmarshal(data, cp), which keeps the fields of `cp` that the text does not have.
  pub unmarshal : String → Checkpoint → Result Checkpoint
  -- checksum.New and Checksum.Verify
  pub checksum_of : String → ℕ
  pub verify : ℕ → String → Option Error

abbrev pub new_checkpoint : Checkpoint
new_checkpoint = record { checksum = 0; v1 = some [] }

abbrev pub with_checksum : ℕ → Checkpoint → Checkpoint
with_checksum n c = record c { checksum = n }

module _ (f : Format) where
  -- The text, and what the method leaves of its receiver.
  marshal_zeroed : Checkpoint → Result String → Result String × Checkpoint
  marshal_zeroed c (err e) = (err e, c)
  marshal_zeroed c (ok out) = let c' = with_checksum (f.checksum_of out) c in (f.marshal c', c')

  unfoldable pub marshal_checkpoint : Checkpoint → Result String × Checkpoint
  unfolding marshal_zeroed
  marshal_checkpoint c = let z = with_checksum 0 c in marshal_zeroed z (f.marshal z)

  unfoldable pub unmarshal_checkpoint : String → Checkpoint → Result Checkpoint
  unmarshal_checkpoint text c = f.unmarshal text c

  -- The deferred call gives the receiver its checksum back.
  unfoldable pub verify_checksum : Checkpoint → Option Error × Checkpoint
  verify_checksum c = (
    elim (f.marshal (with_checksum 0 c)) [ err e ↦ some e | ok out ↦ f.verify c.checksum out ],
    with_checksum c.checksum (with_checksum 0 c),
  )
