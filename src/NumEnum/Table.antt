-- ===== src/NumEnum/Table.antt =====
-- A lawful derive: the search in the list of all variants. Only examples use it.
use uds_rs.Base.{ℕ, ◌≡◌, List, [], ◌∷◌, ◌==◌, if◌then◌else◌, arith}
use uds_rs.NumEnum.Interface.{TryFrom, variant, no_variant, TryFromPrimitive}

module _ {A : Type 0} (as_u8 : A → ℕ) where
  abbrev pub find : List A → ℕ → TryFrom A
  find [] b = no_variant b
  find (a ∷ as') b = let rest = find as' b in if as_u8 a == b then variant a else rest

  pub as_u8-find : (l : List A) (b : ℕ) (a : A) → find l b ≡ variant a → as_u8 a ≡ b
  as_u8-find [] b a h = ground arith
  as_u8-find (x ∷ l) b a h = ground (arith, as_u8-find l b a)

  pub find_number : (l : List A) (b n : ℕ) → find l b ≡ no_variant n → n ≡ b
  find_number [] b n h = ground arith
  find_number (x ∷ l) b n h = ground (arith, find_number l b n)

  abbrev pub from_table :
      (l : List A) → ((a : A) → find l (as_u8 a) ≡ variant a) → TryFromPrimitive as_u8
  from_table l complete = record {
    try_from = find l;
    try_from-as_u8 = complete;
    as_u8-try_from = as_u8-find l;
    number_lem = find_number l;
  }
