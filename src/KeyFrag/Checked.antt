-- ===== src/KeyFrag/Checked.antt =====
-- `KeyFrag.verify` on every branch: what it accepts, and why it refuses the rest.
use nucypher_kms_umbral.Prelude.{
  ◌≡◌, ◌≢◌, refl, ◌⊎◌, inl, inr, Bool, Bool-cases, true, false, ◌&&◌, ok, err, verification_error,
  Option, Result,
}
use nucypher_kms_umbral.Prelude.Bytes.{Bytes}
use nucypher_kms_umbral.Prelude.Residue.{Residue}
use nucypher_kms_umbral.Backend.Interface.{Backend}
use nucypher_kms_umbral.Backend.Laws.{BignumLaws, CurveLaws}
use nucypher_kms_umbral.Openssl.Secp256k1.{secp256k1, scalar_modulus}
use nucypher_kms_umbral.CurveScalar.Arithmetic.{scalar}
use nucypher_kms_umbral.CurvePoint.Defs as CurvePoint
use nucypher_kms_umbral.CurvePoint.Arithmetic.{
  pt, smul, mul-pt, eq-pt_same, eq-pt_differ, point_dec,
}
use nucypher_kms_umbral.Hashing.Defs.{kfrag_signature_message}
use nucypher_kms_umbral.Hashing.ToPoint.{Parameters}
use nucypher_kms_umbral.Keys.Defs.{PublicKey}
use nucypher_kms_umbral.Signing.Defs as Signing
use nucypher_kms_umbral.KeyFrag.Defs.{KeyFrag, VerifiedKeyFrag, verify, given_if, is_none}

module _ ⦃lib : Backend⦄ ⦃bignum : BignumLaws⦄ ⦃curve : CurveLaws⦄ ⦃params : Parameters⦄ where
  -- The commitment is the key times the point `u` of the parameters.
  abbrev pub Commits : KeyFrag → Residue → Type 0
  Commits self k = self.proof.commitment.backend_point ≡ smul k params.u.backend_point

  committed_lem :
      (c : lib.Point) (k : Residue)
      → (holds : Bool) × (CurvePoint.eq (pt c) (pt (smul k params.u.backend_point)) ≡ ok holds)
        × (((holds ≡ true) × (c ≡ smul k params.u.backend_point))
            ⊎ ((holds ≡ false) × (c ≢ smul k params.u.backend_point)))
  committed_lem c k = elim (point_dec c (smul k params.u.backend_point)) [
    | inl e ↦ (true, rw e (eq-pt_same _), inl (refl, e))
    | inr ne ↦ (false, eq-pt_differ _ _ ne, inr (refl, ne))
  ]

  -- A key was signed that is not given.
  abbrev pub lacks : Bool → Option PublicKey → Bool
  lacks is_signed pk = is_signed && is_none pk

  module _ (self : KeyFrag) (verifying_pk : PublicKey)
      (delegating_pk receiving_pk : Option PublicKey) (k : Residue) (message : Bytes)
      (flag : Bool) where
    abbrev verified : Result VerifiedKeyFrag
    verified = verify self verifying_pk delegating_pk receiving_pk

    -- Let `k` be the key of the fragment, and `flag` what the check of the signature for the proxy
    -- gives. Then `verify` accepts exactly if the commitment is that of the key, both keys that were
    -- signed are given and the signature is valid. Otherwise it raises a VerificationError, with
    -- one message for each of the four conditions, and the first that fails decides.
    pub verify-Commits :
        self.key ≡ scalar k
        → kfrag_signature_message self.id self.proof.commitment self.precursor
            (given_if self.proof.delegating_key_signed delegating_pk)
            (given_if self.proof.receiving_key_signed receiving_pk)
          ≡ ok message
        → Signing.verify self.proof.signature_for_proxy verifying_pk message ≡ ok flag
        → ((verify self verifying_pk delegating_pk receiving_pk ≡ ok (record { kfrag = self }))
            × Commits self k
            × (lacks self.proof.delegating_key_signed delegating_pk ≡ false)
            × (lacks self.proof.receiving_key_signed receiving_pk ≡ false)
            × (flag ≡ true))
          ⊎ ((verify self verifying_pk delegating_pk receiving_pk
                ≡ err (verification_error "Invalid kfrag commitment"))
              × ¬ Commits self k)
          ⊎ ((verify self verifying_pk delegating_pk receiving_pk
                ≡ err (
                    verification_error
                      "A signature of a delegating key was included in this kfrag"))
              × Commits self k
              × (lacks self.proof.delegating_key_signed delegating_pk ≡ true))
          ⊎ ((verify self verifying_pk delegating_pk receiving_pk
                ≡ err (
                    verification_error "A signature of a receiving key was included in this kfrag"))
              × Commits self k
              × (lacks self.proof.delegating_key_signed delegating_pk ≡ false)
              × (lacks self.proof.receiving_key_signed receiving_pk ≡ true))
          ⊎ ((verify self verifying_pk delegating_pk receiving_pk
                ≡ err (verification_error "Failed to verify the kfrag signature"))
              × Commits self k
              × (lacks self.proof.delegating_key_signed delegating_pk ≡ false)
              × (lacks self.proof.receiving_key_signed receiving_pk ≡ false)
              × (flag ≡ false))
    unfolding verify
    verify-Commits is_key written signed =
        let (x, cx, hx) = committed_lem self.proof.commitment.backend_point k in
        let u = params.u.backend_point in
        elim hx [
          | inr (ex, ne) ↦ inr (inl (rw (is_key, mul-pt u k, cx, ex) refl, ne))
          | inl (ex, e) ↦ elim (Bool-cases (lacks self.proof.delegating_key_signed delegating_pk)) [
            | inl d ↦ inr (inr (inl (rw (is_key, mul-pt u k, cx, ex, d) refl, e, d)))
            | inr d ↦ elim (Bool-cases (lacks self.proof.receiving_key_signed receiving_pk)) [
              | inl r ↦ inr (inr (inr (inl (rw (is_key, mul-pt u k, cx, ex, d, r) refl, e, d, r))))
              | inr r ↦ elim (Bool-cases flag) [
                | inl f ↦
                    inl (rw (is_key, mul-pt u k, cx, ex, d, r, written, signed, f) refl, e, d, r, f)
                | inr f ↦ inr (
                    inr (
                      inr (
                        inr (
                          rw (is_key, mul-pt u k, cx, ex, d, r, written, signed, f) refl,
                          e,
                          d,
                          r,
                          f,
                        ))))
              ]
            ]
          ]
        ]
