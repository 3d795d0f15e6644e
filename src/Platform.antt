-- ===== src/Platform.antt =====
-- What the program takes from the platform as a function: SHA-256, Unicode's case mapping and the
-- JSON codec of a state file.
use rootforge.Prelude.{◌≡◌}
use rootforge.Text.{Text}
use rootforge.Failure.{Result, ok}

pub record Platform : Type 0 where
  pub sha256 : Text → Text
  pub lower_wide : Text → Text

pub record Codec {ℓ} (A : Type ℓ) : Type ℓ where
  pub encode : A → Result Text
  pub decode : Text → Result A

-- The codec gives back what it encoded, of the values that it writes as they are.
pub record IsFaithful {ℓ} {A : Type ℓ} (c : Codec A) (IsWrittenAsIs : A → Type 0) : Type ℓ where
  pub round_trip :
      (a : A) (bytes : Text) → IsWrittenAsIs a → c.encode a ≡ ok bytes → c.decode bytes ≡ ok a
