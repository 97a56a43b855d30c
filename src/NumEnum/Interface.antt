-- ===== src/NumEnum/Interface.antt =====
-- What the code relies on of num_enum.
use uds_rs.Base.{ℕ, ◌≡◌}

pub data TryFrom {ℓ} (A : Type ℓ) : Type ℓ where
  variant : A → TryFrom A
  no_variant : ℕ → TryFrom A

pub record TryFromPrimitive {ℓ} {A : Type ℓ} (as_u8 : A → ℕ) : Type ℓ where
  pub try_from : ℕ → TryFrom A
  pub try_from-as_u8 : (a : A) → try_from (as_u8 a) ≡ variant a
  pub as_u8-try_from : (b : ℕ) (a : A) → try_from b ≡ variant a → as_u8 a ≡ b
  pub number_lem : (b n : ℕ) → try_from b ≡ no_variant n → n ≡ b
