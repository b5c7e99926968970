-- ===== src/CapsuleFrag/Checked.antt =====
-- `CapsuleFrag.verify` on every branch: what it accepts, and why it refuses the rest.
use nucypher_kms_umbral.Prelude.{
  ◌≡◌, refl, ◌∙◌, ◌⊎◌, inl, inr, Bool, Bool-cases, true, false, ok, err, verification_error, some,
  Result, [], ◌∷◌, not, ◌&&◌, raise_if, ◌>>◌,
}
use nucypher_kms_umbral.Prelude.Bytes.{Bytes}
use nucypher_kms_umbral.Prelude.Residue.{Residue}
use nucypher_kms_umbral.Backend.Interface.{Backend}
use nucypher_kms_umbral.Backend.Laws.{BignumLaws, CurveLaws}
use nucypher_kms_umbral.Openssl.Secp256k1.{secp256k1, scalar_modulus}
use nucypher_kms_umbral.CurveScalar.Arithmetic.{scalar}
use nucypher_kms_umbral.CurvePoint.Defs.{CurvePoint}
use nucypher_kms_umbral.CurvePoint.Arithmetic.{
  pt, smul, mul-pt, add-pt, eq-pt_same, eq-pt_differ, point_dec,
}
use nucypher_kms_umbral.Hashing.Defs.{hash_to_cfrag_verification, kfrag_signature_message}
use nucypher_kms_umbral.Hashing.ToPoint.{Parameters}
use nucypher_kms_umbral.Keys.Defs.{PublicKey}
use nucypher_kms_umbral.Signing.Defs as Signing
use nucypher_kms_umbral.Capsule.Defs.{Capsule}
use nucypher_kms_umbral.CapsuleFrag.Defs.{CapsuleFrag, VerifiedCapsuleFrag, check_part, verify}

module _ ⦃lib : Backend⦄ ⦃bignum : BignumLaws⦄ ⦃curve : CurveLaws⦄ ⦃params : Parameters⦄ where
  open curve use {plus}

  -- The response `z` answers the challenge `h` for the points: `z` times `p` is `p2` plus `h` times
  -- `p1`.
  abbrev pub Answers : Residue → Residue → CurvePoint → CurvePoint → CurvePoint → Type 0
  Answers z h p p1 p2 = smul z p.backend_point ≡ plus p2.backend_point (smul h p1.backend_point)

  check_part_lem :
      (z h : Residue) (p p1 p2 : lib.Point)
      → (holds : Bool) × (check_part (pt p) (pt p1) (pt p2) (scalar z) (scalar h) ≡ ok holds)
        × (((holds ≡ true) × Answers z h (pt p) (pt p1) (pt p2))
            ⊎ ((holds ≡ false) × ¬ Answers z h (pt p) (pt p1) (pt p2)))
  unfolding check_part
  check_part_lem z h p p1 p2 = elim (point_dec (smul z p) (plus p2 (smul h p1))) [
    | inl e ↦ (true, rw (mul-pt p z, mul-pt p1 h, add-pt, e) (eq-pt_same _), inl (refl, e))
    | inr ne ↦ (false, rw (mul-pt p z, mul-pt p1 h, add-pt) (eq-pt_differ _ _ ne), inr (refl, ne))
  ]

  -- The three equations of the proof.
  abbrev pub Proved : CapsuleFrag → Capsule → Residue → Residue → Type 0
  Proved self capsule z h =
      Answers z h capsule.point_e self.point_e1 self.proof.point_e2
      × Answers z h capsule.point_v self.point_v1 self.proof.point_v2
      × Answers z h params.u self.proof.kfrag_commitment self.proof.kfrag_pok

  module _ (self : CapsuleFrag) (capsule : Capsule)
      (verifying_pk delegating_pk receiving_pk : PublicKey) (z h : Residue) (message : Bytes)
      (flag : Bool) where
    abbrev verified : Result VerifiedCapsuleFrag
    verified = verify self capsule verifying_pk delegating_pk receiving_pk

    -- Let `h` be the hash of the nine points, and `flag` what the check of the key fragment's
    -- signature gives. Then `verify` accepts exactly if the signature is valid and the three
    -- equations of the proof hold, and raises a VerificationError otherwise, with one message for
    -- an invalid signature and another for an equation that does not hold.
    pub verify-Proved :
        self.proof.signature ≡ scalar z
        → hash_to_cfrag_verification (
            capsule.point_e ∷ self.point_e1 ∷ self.proof.point_e2 ∷ capsule.point_v ∷ self.point_v1
            ∷ self.proof.point_v2 ∷ params.u ∷ self.proof.kfrag_commitment ∷ self.proof.kfrag_pok
            ∷ [])
          ≡ ok (scalar h)
        → kfrag_signature_message self.kfrag_id self.proof.kfrag_commitment self.precursor
            (some delegating_pk)
            (some receiving_pk)
          ≡ ok message
        → Signing.verify self.proof.kfrag_signature verifying_pk message ≡ ok flag
        → ((verify self capsule verifying_pk delegating_pk receiving_pk
              ≡ ok (record { cfrag = self }))
            × (flag ≡ true)
            × Proved self capsule z h)
          ⊎ ((verify self capsule verifying_pk delegating_pk receiving_pk
                ≡ err (verification_error "Invalid KeyFrag signature"))
              × (flag ≡ false))
          ⊎ ((verify self capsule verifying_pk delegating_pk receiving_pk
                ≡ err (verification_error "Failed to verify reencryption proof"))
              × (flag ≡ true)
              × ¬ Proved self capsule z h)
    unfolding verify
    verify-Proved response hashed written signed = elim (Bool-cases flag) [
      | inr e ↦ inr (inl (rw (hashed, written, signed, e) refl, e))
      | inl e ↦
          let (x, cx, hx) =
            check_part_lem z h capsule.point_e.backend_point self.point_e1.backend_point
              self.proof.point_e2.backend_point in
          let (y, cy, hy) =
            check_part_lem z h capsule.point_v.backend_point self.point_v1.backend_point
              self.proof.point_v2.backend_point in
          let (w, cw, hw) =
            check_part_lem z h params.u.backend_point self.proof.kfrag_commitment.backend_point
              self.proof.kfrag_pok.backend_point in
          let run : verified ≡ (
              raise_if (not (x && (y && w)))
                (verification_error "Failed to verify reencryption proof")
              >> ok (record { cfrag = self })) =
            rw (hashed, written, signed, e, response, cx, cy, cw) refl in
          elim hx [
            | inr (ex, ne) ↦ inr (inr (run ∙ rw ex refl, e, λ p. ne p.0))
            | inl (ex, px) ↦ elim hy [
              | inr (ey, ne) ↦ inr (inr (run ∙ rw (ex, ey) refl, e, λ p. ne p.1))
              | inl (ey, py) ↦ elim hw [
                | inr (ew, ne) ↦ inr (inr (run ∙ rw (ex, ey, ew) refl, e, λ p. ne p.2))
                | inl (ew, pw) ↦ inl (run ∙ rw (ex, ey, ew) refl, e, (px, py, pw))
              ]
            ]
          ]
    ]
