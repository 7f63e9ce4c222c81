-- ===== src/Claim/NicNames.antt =====
-- The interface names that NicConfig of api/kube-ovn.io/resource/nic/v1alpha1/api.go lets through,
-- against those that Linux takes for an interface. A string stands for its bytes.
use Prim.Native.Char.{code}
use kube_ovn_dra_driver.Prelude.{ℕ, String, len, ◌≤◌, ◌<◌, ◌≢◌, ◌⊎◌}

abbrev pub AllBytes : (ℕ → Type 0) → String → Type 0
AllBytes P String.[] = Unit
AllBytes P (String.◌∷◌ c s) = P (code c) × AllBytes P s

-- Neither "/" nor ":", and no isspace of the kernel: the bytes 9 to 13, 32 and 160.
abbrev pub IsLinkByte : ℕ → Type 0
IsLinkByte b = (b ≢ b'/') × (b ≢ b':') × ((b < 9) ⊎ (13 < b)) × (b ≢ 32) × (b ≢ 160)

-- dev_valid_name of Linux: one to fifteen bytes, not a directory entry.
pub record IsLinkName (name : String) : Type 0 where
  pub not_empty : name ≢ ""
  pub fits : len name ≤ 15
  pub not_dot : name ≢ "."
  pub not_dots : name ≢ ".."
  pub bytes : AllBytes IsLinkByte name

-- None of the white space that isspace of the kernel has and the list of Validate has not.
abbrev pub IsNotOddSpace : ℕ → Type 0
IsNotOddSpace b = (b ≢ 11) × (b ≢ 12) × (b ≢ 13) × (b ≢ 160)
