-- ===== src/Signing/Accepted.antt =====
-- A signature that a signer makes verifies under its key, and has its `s` in the lower half.
use nucypher_kms_umbral.Prelude.{
  ℕ, ◌-◌, ◌/◌, ◌<◌, ◌≤◌, ◌≡◌, ◌≢◌, refl, sym, ap, ◌∙◌, pos, some, Result, ok, true, ltb,
  if◌then◌else◌, arith, Bool-cases, inl, inr,
}
use nucypher_kms_umbral.Prelude.Bytes.{Bytes}
use nucypher_kms_umbral.Prelude.Residue.{Residue, residue, zero_r, residue_eq, ⊗_comm, zero-⊗}
use nucypher_kms_umbral.Backend.Interface.{Backend}
use nucypher_kms_umbral.Backend.Laws.{BignumLaws, CurveLaws, EcdsaLaws}
use nucypher_kms_umbral.Backend.Random.{run_bind, run_lift, lift, ◌>>=◌}
use nucypher_kms_umbral.Openssl.Secp256k1.{secp256k1, scalar_modulus}
use nucypher_kms_umbral.CurveScalar.Arithmetic.{scalar, inverse_r, inverse_r-⊗}
use nucypher_kms_umbral.CurvePoint.Arithmetic.{smul, smul-⊗, smul-one, smul-zero}
use nucypher_kms_umbral.Keys.Pairs.{public_of, key_of}
use nucypher_kms_umbral.Signing.Defs.{Signer, Signature, normalize_s, sign, verify}
use nucypher_kms_umbral.Hash
use nucypher_kms_umbral.Hash.{Hash}
use nucypher_kms_umbral.CurveScalar.Defs as CurveScalar
use nucypher_kms_umbral.Openssl.Ecdsa.{ecdsa_sign, ecdsa_verify, bn_to_privkey, point_to_pubkey}
use nucypher_kms_umbral.Signing.Defs.{
  signature_of_ints, sign_digest, verify_digest, digest_for_signing,
}
use native.Mathlib.Nat.{mod-eq_of_lt}

module _ ⦃lib : Backend⦄ ⦃bignum : BignumLaws⦄ ⦃curve : CurveLaws⦄ where
  open curve use {identity, generator as g}

  -- A public key of a scalar other than zero is not the identity.
  pub public_point_ne : (a : Residue) → a ≢ zero_r → smul a g ≢ identity
  public_point_ne a h e = curve.generator_ne (
      sym (smul-one g)
      ∙ ap (λ t. smul t g) (sym (inverse_r-⊗ a h))
      ∙ smul-⊗ (inverse_r a) a g
      ∙ ap (smul (inverse_r a)) (e ∙ sym (smul-zero g))
      ∙ sym (smul-⊗ (inverse_r a) zero_r g)
      ∙ ap (λ t. smul t g) (⊗_comm (inverse_r a) zero_r ∙ zero-⊗ (inverse_r a))
      ∙ smul-zero g)

  positive_of : (a : Residue) → a ≢ zero_r → 0 < a.0
  unfolding zero_r residue
  positive_of a h =
      let ne : a.0 ≢ 0 = λ e. h (residue_eq _ _ (e ∙ sym (mod-eq_of_lt scalar_modulus.positive))) in
      omega arith

  -- The lower of `s` and its opposite.
  abbrev pub low : ℕ → ℕ
  low s = if ltb (curve.order / 2) s then curve.order - s else s

  normalize_s-pos : (s : ℕ) → s < curve.order → normalize_s (pos s) ≡ pos (low s)
  unfolding normalize_s
  normalize_s-pos s h = ground arith

  low-le : (s : ℕ) → s < curve.order → low s ≤ curve.order / 2
  low-le s h = ground arith

  low-lt : (s : ℕ) → 0 < s → s < curve.order → (0 < low s) × (low s < curve.order)
  low-lt s h h' = ground arith

  module _ ⦃ecdsa : EcdsaLaws⦄ where
    signer_of : Residue → Signer
    signer_of a = record { secret_key = key_of a }

    abbrev digest_of : Bytes → Bytes
    digest_of message = lib.hash_finalize (lib.hash_update lib.hash_new message)

    -- The signature that is made of the numbers that OpenSSL gives.
    abbrev made : (r s : ℕ) → r < curve.order → (0 < s) × (s < curve.order) → Signature
    made r s hr hs = record { r = scalar (r, hr); s = scalar (low s, (low-lt s hs.0 hs.1).1) }

    private_key-ok :
        (a : Residue)
        → a ≢ zero_r
        → bn_to_privkey secp256k1 (lib.bn_of (pos a.0)) ≡ ok (ecdsa.private_key a.0)
    unfolding bn_to_privkey
    private_key-ok a h = rw (ecdsa.set_private_key a.0 (positive_of a h) a.1) refl

    ecdsa_run :
        (a : Residue) (digest : Bytes) (rng rng' : lib.Rng) (r s : ℕ)
        → a ≢ zero_r
        → lib.ecdsa_sign (ecdsa.private_key a.0) digest rng
          ≡ some (lib.encode_dss_signature (pos r) (pos s), rng')
        → ecdsa_sign secp256k1 (lib.bn_of (pos a.0)) digest rng ≡ ok ((pos r, pos s), rng')
    unfolding ecdsa_sign
    ecdsa_run a digest rng rng' r s h signed =
        run_lift _ (private_key-ok a h) ∙ rw (signed, ◌>>=◌, ecdsa.decode_encode) refl

    signature_run :
        (r s : ℕ) (hr : r < curve.order) (hs : (0 < s) × (s < curve.order))
        → signature_of_ints (pos r, pos s) ≡ ok (made r s hr hs)
    unfolding signature_of_ints CurveScalar.from_int
    signature_run r s hr hs =
        rw (normalize_s-pos s hs.1, bignum.int_to_bn_pos r, bignum.int_to_bn_pos (low s)) refl

    sign_run :
        (a : Residue) (message : Bytes) (rng rng' : lib.Rng) (r s : ℕ) (hr : r < curve.order)
        (hs : (0 < s) × (s < curve.order))
        → a ≢ zero_r
        → lib.ecdsa_sign (ecdsa.private_key a.0) (digest_of message) rng
          ≡ some (lib.encode_dss_signature (pos r) (pos s), rng')
        → sign (signer_of a) message rng ≡ ok (made r s hr hs, rng')
    unfolding sign sign_digest digest_for_signing Hash.init Hash.update Hash.finalize signer_of
    sign_run a message rng rng' r s hr hs h signed =
        run_bind (ecdsa_sign secp256k1 (lib.bn_of (pos a.0)) (digest_of message)) _
          (ecdsa_run a (digest_of message) rng rng' r s h signed)
        ∙ ap (λ (t : Result Signature). lift t rng') (signature_run r s hr hs)

    verify_low :
        (key : lib.PublicKey) (digest : Bytes) (r s : ℕ)
        → 0 < s
        → s < curve.order
        → lib.ecdsa_verify key (lib.encode_dss_signature (pos r) (pos (low s))) digest
          ≡ lib.ecdsa_verify key (lib.encode_dss_signature (pos r) (pos s)) digest
    verify_low key digest r s h h' = elim (Bool-cases (ltb (curve.order / 2) s)) [
      | inl e ↦ rw e (ecdsa.verify_opposite key r s digest h h')
      | inr e ↦ rw e refl
    ]

    verify_run :
        (a : Residue) (message : Bytes) (r s : ℕ) (hr : r < curve.order)
        (hs : (0 < s) × (s < curve.order))
        → a ≢ zero_r
        → lib.ecdsa_verify
            (ecdsa.public_key (smul a g))
            (lib.encode_dss_signature (pos r) (pos s))
            (digest_of message)
          ≡ true
        → verify (made r s hr hs) (public_of a) message ≡ ok true
    unfolding verify verify_digest digest_for_signing Hash.init Hash.update Hash.finalize
        ecdsa_verify point_to_pubkey CurveScalar.to_int
    verify_run a message r s hr hs h valid =
        rw
          (
            ecdsa.set_public_key (smul a g) (public_point_ne a h),
            bignum.int_of_bn,
            bignum.int_of_bn,
          )
          (ap ok (verify_low _ _ r s hs.0 hs.1 ∙ valid))

    -- With a key other than zero, `sign` succeeds whatever is drawn, the signature verifies under
    -- the key's public key, and its `s` is in the lower half of the range.
    pub verify-sign :
        (a : Residue) (message : Bytes) (rng : lib.Rng)
        → a ≢ zero_r
        → (r : Residue) × (s : Residue) × (rng' : lib.Rng) × (sign
              (record { secret_key = key_of a })
              message
              rng
            ≡ ok (record { r = scalar r; s = scalar s }, rng'))
          × (verify (record { r = scalar r; s = scalar s }) (public_of a) message ≡ ok true)
          × (s.0 ≤ curve.order / 2)
    unfolding smul signer_of
    verify-sign a message rng h =
        let (r, s, rng', signed, (_, hr, hs, hs'), valid) =
          ecdsa.sign a.0 (digest_of message) rng (positive_of a h) a.1 in
        (
          (r, hr),
          (low s, (low-lt s hs hs').1),
          rng',
          sign_run a message rng rng' r s hr (hs, hs') h signed,
          verify_run a message r s hr (hs, hs') h valid,
          low-le s hs',
        )
