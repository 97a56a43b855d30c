-- ===== src/ReadDataByIdentifier/Records.antt =====
-- The response of the service ReadDataByIdentifier: one record for each requested identifier.
use uds_rs.Base.{
  ℕ, zero, suc, List, [], ◌∷◌, ◌++◌, ◌≡◌, ◌≢◌, ◌∙◌, refl, ap, ok, arith, All, IsByte, IsU16, be_16,
  ◌*◌, ◌+◌, length, Bool-cases, inl, inr, ◌!=◌, u16_from, >>=-eq-ok,
}
use mathlib.Core.List.{append_assoc, append-nil}
use mathlib.Core.Path.{subst, subst₂}
use uds_rs.Response.{UdsError, DataRecord}
use uds_rs.ReadDataByIdentifier.{u32_max, push_exactly, push_all, next_record}

-- The records as they stand in the response, without its SID: to each request its identifier and as
-- many bytes as it asks for. A request for `u32::MAX` bytes takes all that is left. Bytes after the
-- last record are allowed.
pub data Laid : List (ℕ × ℕ) → List DataRecord → List ℕ → Type 0 where
  end : {left : List ℕ} → Laid [] [] left
  exact :
      {did len : ℕ} {requested : List (ℕ × ℕ)} {records : List DataRecord} (bytes tail : List ℕ)
      → length bytes ≡ len
      → len ≢ u32_max
      → Laid requested records tail
      → Laid
          ((did, len) ∷ requested)
          (record { data_identifier = did; bytes = bytes } ∷ records)
          (be_16 did ++ (bytes ++ tail))
  all :
      {did len : ℕ} {requested : List (ℕ × ℕ)} {records : List DataRecord} (bytes : List ℕ)
      → len ≡ u32_max
      → Laid requested records []
      → Laid
          ((did, len) ∷ requested)
          (record { data_identifier = did; bytes = bytes } ∷ records)
          (be_16 did ++ bytes)

push_exactly_lem :
    (e : UdsError) (acc bytes tail : List ℕ)
    → push_exactly e (length bytes) acc (bytes ++ tail) ≡ ok (acc ++ bytes, tail)
unfolding push_exactly
push_exactly_lem e acc [] tail = rw append-nil
push_exactly_lem e acc (x ∷ bytes) tail =
    push_exactly_lem e (acc ++ (x ∷ [])) bytes tail ∙ simp append_assoc

push_exactly_ok :
    (e : UdsError) (len : ℕ) (acc rest : List ℕ) {out tail : List ℕ}
    → push_exactly e len acc rest ≡ ok (out, tail)
    → (bytes : List ℕ) × (length bytes ≡ len) × (rest ≡ bytes ++ tail) × (out ≡ acc ++ bytes)
unfolding push_exactly
push_exactly_ok e zero acc rest h = ([], refl, ground arith, rw append-nil (ground arith))
push_exactly_ok e (suc len) acc [] h = absurd (ground arith)
push_exactly_ok e (suc len) acc (x ∷ rest) h =
    let (bytes, n, same, out) = push_exactly_ok e len (acc ++ (x ∷ [])) rest h in
    (x ∷ bytes, ap suc n, ap (λ l. x ∷ l) same, out ∙ append_assoc acc (x ∷ []) bytes)

push_all_lem : (acc rest : List ℕ) → push_all acc rest ≡ (acc ++ rest, [])
unfolding push_all
push_all_lem acc [] = rw append-nil
push_all_lem acc (x ∷ rest) = push_all_lem (acc ++ (x ∷ [])) rest ∙ simp append_assoc

module _ (raw : List ℕ) where
  pub next_record_exact :
      (did len : ℕ) (bytes tail : List ℕ)
      → IsU16 did
      → length bytes ≡ len
      → len ≢ u32_max
      → next_record raw did len (be_16 did ++ (bytes ++ tail))
        ≡ ok (record { data_identifier = did; bytes = bytes }, tail)
  unfolding next_record
  next_record_exact did len bytes tail hd n ne = ground (
    arith,
    subst (λ k. push_exactly (UdsError.invalid_length raw) k [] (bytes ++ tail) ≡ ok (bytes, tail))
        n (push_exactly_lem (UdsError.invalid_length raw) [] bytes tail),
  )

  pub next_record_all :
      (did len : ℕ) (bytes : List ℕ)
      → IsU16 did
      → len ≡ u32_max
      → next_record raw did len (be_16 did ++ bytes)
        ≡ ok (record { data_identifier = did; bytes = bytes }, [])
  unfolding next_record
  next_record_all did len bytes hd n = ground (arith, push_all_lem [] bytes)

  -- What a record that was read tells of the bytes before it.
  pub data Read (did len : ℕ) (rest : List ℕ) : DataRecord → List ℕ → Type 0 where
    read_exact :
        (bytes tail : List ℕ)
        → length bytes ≡ len
        → len ≢ u32_max
        → rest ≡ be_16 did ++ (bytes ++ tail)
        → Read did len rest (record { data_identifier = did; bytes = bytes }) tail
    read_all :
        (bytes : List ℕ)
        → len ≡ u32_max
        → rest ≡ be_16 did ++ bytes
        → Read did len rest (record { data_identifier = did; bytes = bytes }) []

  pub next_record_ok :
      (did len : ℕ) (rest : List ℕ) (r : DataRecord) (tail : List ℕ)
      → All IsByte rest
      → next_record raw did len rest ≡ ok (r, tail)
      → Read did len rest r tail
  unfolding next_record
  next_record_ok did len [] r tail b h = absurd (ground arith)
  next_record_ok did len (_ ∷ []) r tail b h = absurd (ground arith)
  next_record_ok did len (msb ∷ lsb ∷ rest) r tail b h =
      elim (Bool-cases (did != u16_from msb lsb)) [
        | inl foreign ↦ cc (rw foreign at h)
        | inr own ↦
            let same : did ≡ msb * 256 + lsb = ground arith in
            elim (Bool-cases (len != u32_max)) [
              | inl counted ↦
                  let ((out, tail'), e, e') =
                    >>=-eq-ok (push_exactly (UdsError.invalid_length raw) len [] rest) _
                      (rw (own, counted) at h) in
                  let (bytes, n, whole, taken) =
                    push_exactly_ok (UdsError.invalid_length raw) len [] rest e in
                  subst₂ (Read did len (msb ∷ lsb ∷ rest)) (ground arith) (ground arith)
                    (read_exact bytes tail' n (ground arith) (ground arith))
              | inr unbounded ↦
                  let h' = rw (own, unbounded, push_all_lem [] rest) at h in
                  subst₂ (Read did len (msb ∷ lsb ∷ rest)) (ground arith) (ground arith)
                    (read_all rest (ground arith) (ground arith))
            ]
      ]
