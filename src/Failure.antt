-- ===== src/Failure.antt =====
-- The errors of the control plane, and the result of a function that may return one. An error keeps
-- what errors.Is and the callers can tell apart; the message texts are left out.
use rootforge.Prelude.{ℕ, List, ◌≡◌, refl, ◌⊎◌, inl, inr}

-- The problems that Event.Validate collects.
pub data Problem : Type 0 where
  type_required source_required occurred_at_required environment_required scope_required : Problem

pub data Error : Type 0 where
  invalid_event : List Problem → Error
  nil_incident fingerprint_mismatch event_scope_conflict event_id_conflict : Error
  not_found id_conflict empty_case_id : Error
  no_task task_not_found lease_conflict : Error
  incomplete_request task_id_collision : Error
  missing_field incomplete_timestamps foreign_task_id unsupported_status incomplete_lease : Error
  lease_while_pending incomplete_incident invalid_timestamps foreign_event invalid_window : Error
  unsupported_version duplicate_id shared_fingerprint : Error
  directory_required : Error
  -- an error of the platform: a cancelled context, the file system, the random source, the codec
  platform : ℕ → Error
  -- fmt.Errorf with %w: the error inside, as errors.Is sees it
  wrapped : Error → Error

pub data Result {ℓ} (A : Type ℓ) : Type ℓ where
  ok : A → Result A
  err : Error → Result A

infixl 5 ◌>>=◌
abbrev pub ◌>>=◌ {ℓ κ} : {A : Type ℓ} {B : Type κ} → Result A → (A → Result B) → Result B
ok a >>= f = f a
err e >>= f = err e

pub Result-cases {ℓ} :
    {A : Type ℓ} (r : Result A) → ((e : Error) × (r ≡ err e)) ⊎ ((a : A) × (r ≡ ok a))
Result-cases (ok a) = inr (a, refl)
Result-cases (err e) = inl (e, refl)

-- To prove a property of a match on a result, prove it of both cases under what the result is.
pub result_rule {ℓ κ μ} :
    {A : Type ℓ} {B : Type κ} (P : B → Type μ) (r : Result A) (f : Error → B) (g : A → B)
    → ((e : Error) → r ≡ err e → P (f e))
    → ((a : A) → r ≡ ok a → P (g a))
    → P (elim r [ err e ↦ f e | ok a ↦ g a ])
result_rule P (err e) f g h k = h e refl
result_rule P (ok a) f g h k = k a refl
