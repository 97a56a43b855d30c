-- ===== src/Client/Refusals.antt =====
-- What `parse_for_error` takes for a refusal.
use uds_rs.Base.{
  ℕ, List, [], ◌∷◌, ◌≡◌, ◌≢◌, ◌↔◌, ◌⊎◌, ◌<◌, inl, inr, refl, sym, ok, err, arith, length,
  Bool-cases, ◌!=◌,
}
use mathlib.Core.Path.{subst}
use uds_rs.NumEnum.{TryFrom, variant, no_variant, TryFromPrimitive}
use uds_rs.Definitions.{NegativeResponseCode, negative_response_code_as_u8}
use uds_rs.Response.{UdsError}
use uds_rs.Client.{nrc_error, parse_for_error}
use uds_rs.Client.Exchange.{rejection, Rejects}

nrc_error-variant :
    (s s' : ℕ) (code : NegativeResponseCode) (c : TryFrom NegativeResponseCode)
    → nrc_error s' c ≡ err (rejection s code)
    → (s' ≡ s) × (c ≡ variant code)
nrc_error-variant s s' code (variant a) h = (ground arith, ground arith)
nrc_error-variant s s' code (no_variant n) h = absurd (ground arith)

nrc_error-no_variant :
    (s s' n : ℕ) (c : TryFrom NegativeResponseCode)
    → nrc_error s' c ≡ err (UdsError.unknown_nrc s n)
    → (s' ≡ s) × (c ≡ no_variant n)
nrc_error-no_variant s s' n (variant a) h = absurd (ground arith)
nrc_error-no_variant s s' n (no_variant m) h = (ground arith, ground arith)

nrc_error-ne-ok : (s : ℕ) (c : TryFrom NegativeResponseCode) → nrc_error s c ≢ ok tt
nrc_error-ne-ok s (variant a) h = cc
nrc_error-ne-ok s (no_variant n) h = cc

nrc_error-ne-empty :
    (s : ℕ) (c : TryFrom NegativeResponseCode) → nrc_error s c ≢ err UdsError.response_empty
nrc_error-ne-empty s (variant a) h = ground arith
nrc_error-ne-empty s (no_variant n) h = ground arith

module _ ⦃nrcs : TryFromPrimitive negative_response_code_as_u8⦄ where
  rejection-Rejects :
      (s : ℕ) (code : NegativeResponseCode) (rest : List ℕ)
      → Rejects s code (0x7F ∷ s ∷ negative_response_code_as_u8 code ∷ rest)
  unfolding parse_for_error
  rejection-Rejects s code rest = rw (nrcs.try_from-as_u8 code)

  Rejects-bytes :
      (s : ℕ) (code : NegativeResponseCode) (raw : List ℕ)
      → Rejects s code raw
      → (rest : List ℕ) × (raw ≡ 0x7F ∷ s ∷ negative_response_code_as_u8 code ∷ rest)
  unfolding parse_for_error
  Rejects-bytes s code [] h = absurd (ground arith)
  Rejects-bytes s code (sid ∷ []) h = absurd (ground arith)
  Rejects-bytes s code (sid ∷ s' ∷ []) h = absurd (ground arith)
  Rejects-bytes s code (sid ∷ s' ∷ c ∷ rest) h =
      let first : sid ≡ 0x7F = ground arith in
      let (own, known) = nrc_error-variant s s' code (nrcs.try_from c) (rw first at h) in
      (rest, ground (arith, nrcs.as_u8-try_from c code known))

  -- A response is taken for the refusal of a service with a known code exactly when it begins with
  -- 0x7F, the SID of the service and the byte of the code.
  parse_for_error-Rejects_iff :
      (s : ℕ) (code : NegativeResponseCode) (raw : List ℕ)
      → Rejects s code raw
        ↔ ((rest : List ℕ) × (raw ≡ 0x7F ∷ s ∷ negative_response_code_as_u8 code ∷ rest))
  parse_for_error-Rejects_iff s code raw = (
    Rejects-bytes s code raw,
    λ (rest, e). subst (Rejects s code) (sym e) (rejection-Rejects s code rest),
  )

  unknown-bytes :
      (s n : ℕ) (raw : List ℕ)
      → parse_for_error raw ≡ err (UdsError.unknown_nrc s n)
      → (rest : List ℕ) × (raw ≡ 0x7F ∷ s ∷ n ∷ rest) × (nrcs.try_from n ≡ no_variant n)
  unfolding parse_for_error
  unknown-bytes s n [] h = absurd (ground arith)
  unknown-bytes s n (sid ∷ []) h = absurd (ground arith)
  unknown-bytes s n (sid ∷ s' ∷ []) h = absurd (ground arith)
  unknown-bytes s n (sid ∷ s' ∷ c ∷ rest) h =
      let first : sid ≡ 0x7F = ground arith in
      let (own, unknown) = nrc_error-no_variant s s' n (nrcs.try_from c) (rw first at h) in
      let same : n ≡ c = nrcs.number_lem c n unknown in
      (rest, ground arith, rw (sym same) at unknown)

  -- A response is taken for the refusal of a service with an unknown code exactly when it begins with
  -- 0x7F, the SID of the service and a byte that no known code has, which is reported.
  pub parse_for_error-unknown_iff :
      (s n : ℕ) (raw : List ℕ)
      → (parse_for_error raw ≡ err (UdsError.unknown_nrc s n))
        ↔ ((rest : List ℕ) × (raw ≡ 0x7F ∷ s ∷ n ∷ rest) × (nrcs.try_from n ≡ no_variant n))
  unfolding parse_for_error
  parse_for_error-unknown_iff s n raw =
      (unknown-bytes s n raw, λ (rest, e, unknown). rw (e, unknown))

  not_positive : (rest : List ℕ) → parse_for_error (0x7F ∷ rest) ≢ ok tt
  unfolding parse_for_error
  not_positive [] h = cc
  not_positive (s ∷ []) h = cc
  not_positive (s ∷ c ∷ rest) h = nrc_error-ne-ok s (nrcs.try_from c) h

  -- A response is taken for a positive one exactly when its first byte is another than 0x7F.
  parse_for_error-positive_iff :
      (raw : List ℕ)
      → (parse_for_error raw ≡ ok tt)
        ↔ ((sid : ℕ) × (rest : List ℕ) × (raw ≡ sid ∷ rest) × (sid ≢ 0x7F))
  unfolding parse_for_error
  parse_for_error-positive_iff [] = (λ h. absurd (ground arith), λ (s, rest, e, ne). cc)
  parse_for_error-positive_iff (sid ∷ rest) = (
    λ h. (
      sid,
      rest,
      refl,
      λ e. not_positive rest (subst (λ b. parse_for_error (b ∷ rest) ≡ ok tt) e h),
    ),
    λ (s, rest', e, ne). ground arith,
  )

  short_empty :
      (rest : List ℕ)
      → length rest < 2
      → parse_for_error (0x7F ∷ rest) ≡ err UdsError.response_empty
  unfolding parse_for_error
  short_empty [] h = refl
  short_empty (s ∷ []) h = refl
  short_empty (s ∷ c ∷ rest) h = absurd (omega arith)

  empty_short :
      (raw : List ℕ)
      → parse_for_error raw ≡ err UdsError.response_empty
      → (raw ≡ []) ⊎ ((rest : List ℕ) × (raw ≡ 0x7F ∷ rest) × (length rest < 2))
  unfolding parse_for_error
  empty_short [] h = inl refl
  empty_short (sid ∷ []) h = inr ([], ground arith, omega arith)
  empty_short (sid ∷ s ∷ []) h = inr (s ∷ [], ground arith, omega arith)
  empty_short (sid ∷ s ∷ c ∷ rest) h = elim (Bool-cases (sid != 0x7F)) [
    | inl positive ↦ cc (rw positive at h)
    | inr negative ↦ absurd (nrc_error-ne-empty s (nrcs.try_from c) (rw negative at h))
  ]

  -- `ResponseEmpty` is reported of an empty response and, too, of a response of one or two bytes
  -- that begins with 0x7F.
  parse_for_error-empty_iff :
      (raw : List ℕ)
      → (parse_for_error raw ≡ err UdsError.response_empty)
        ↔ ((raw ≡ []) ⊎ ((rest : List ℕ) × (raw ≡ 0x7F ∷ rest) × (length rest < 2)))
  parse_for_error-empty_iff raw = (
    empty_short raw,
    λ h. elim h [
      | inl e ↦ rw e (unfold parse_for_error in refl)
      | inr (rest, e, short) ↦
          subst (λ r. parse_for_error r ≡ err UdsError.response_empty) (sym e)
            (short_empty rest short)
    ],
  )

  -- What a response is taken for: a refusal with a known code exactly when it begins with 0x7F, the SID
  -- of the service and the byte of the code; one with an unknown code exactly when that byte is of no
  -- known code; positive exactly when its first byte is another than 0x7F; and `ResponseEmpty` is
  -- reported exactly of an empty response and of one of one or two bytes that begins with 0x7F.
  pub parse_for_error_lem :
      (s n : ℕ) (code : NegativeResponseCode) (raw : List ℕ)
      → (Rejects s code raw
          ↔ ((rest : List ℕ) × (raw ≡ 0x7F ∷ s ∷ negative_response_code_as_u8 code ∷ rest)))
        × ((parse_for_error raw ≡ err (UdsError.unknown_nrc s n))
            ↔ ((rest : List ℕ) × (raw ≡ 0x7F ∷ s ∷ n ∷ rest) × (nrcs.try_from n ≡ no_variant n)))
        × ((parse_for_error raw ≡ ok tt)
            ↔ ((sid : ℕ) × (rest : List ℕ) × (raw ≡ sid ∷ rest) × (sid ≢ 0x7F)))
        × ((parse_for_error raw ≡ err UdsError.response_empty)
            ↔ ((raw ≡ []) ⊎ ((rest : List ℕ) × (raw ≡ 0x7F ∷ rest) × (length rest < 2))))
  parse_for_error_lem s n code raw = (
    parse_for_error-Rejects_iff s code raw,
    parse_for_error-unknown_iff s n raw,
    parse_for_error-positive_iff raw,
    parse_for_error-empty_iff raw,
  )
