-- ===== src/Signing/Defs.antt =====
-- The class `Signer` and the class `Signature` of umbral/signing.py.
use nucypher_kms_umbral.Prelude.{
  ℕ, ℤ, ◌-ℤ◌, ltb_ℤ, shr_one, Bool, false, ◌&&◌, none, Result, ok, err, List, [], ◌∷◌,
  runtime_error, if◌then◌else◌, ◌>>=◌,
}
use nucypher_kms_umbral.Prelude.Bytes.{b, short_str, hidden_str, Bytes}
use nucypher_kms_umbral.Backend.Interface.{Backend}
use nucypher_kms_umbral.Backend.Random.{Random, lift, ◌>>=◌ as ◌>>=ᵣ◌}
use nucypher_kms_umbral.Openssl.Curve.{Curve}
use nucypher_kms_umbral.Openssl.Ecdsa.{ecdsa_sign, ecdsa_verify}
use nucypher_kms_umbral.CurveScalar.Defs as CurveScalar
use nucypher_kms_umbral.CurveScalar.Defs.{CurveScalar, scalar_serial}
use nucypher_kms_umbral.Serializable.Defs.{Serial, Component, split, join, total_size}
use nucypher_kms_umbral.Keys.Defs.{SecretKey, PublicKey}
use nucypher_kms_umbral.Hash
use nucypher_kms_umbral.Hash.{Hash}

module _ ⦃lib : Backend⦄ where
  unfoldable pub digest_for_signing : Bytes → Result Hash
  unfolding Hash.init Hash.update
  digest_for_signing message = do digest ← Hash.init none; ok (Hash.update digest message)

  pub record Signer : Type 0 where
    pub secret_key : SecretKey

  pub record Signature : Type 0 where
    pub r : CurveScalar
    pub s : CurveScalar

  unfoldable pub verifying_key : Signer → PublicKey
  verifying_key self = self.secret_key.public_key

  -- `Signer.__str__`
  unfoldable pub signer_str : Signer → Bytes
  unfolding hidden_str
  signer_str self = hidden_str (b "Signer")

  -- `Signer.__bytes__`
  unfoldable pub signer_bytes : Signer → Result Bytes
  signer_bytes self = err (runtime_error "Signer objects do not support serialization")

  -- `Signer.__hash__`
  unfoldable pub signer_hash : Signer → Result ℕ
  signer_hash self = err (runtime_error "Signer objects do not support hashing")

  -- `Signature.__eq__`
  unfoldable pub signature_eq : Signature → Signature → Bool
  unfolding CurveScalar.eq
  signature_eq self other = CurveScalar.eq self.r other.r && CurveScalar.eq self.s other.s

module _ ⦃lib : Backend⦄ ⦃CURVE : Curve⦄ where
  -- `s_int` moved into the lower half of the range.
  unfoldable pub normalize_s : ℤ → ℤ
  normalize_s s_int = if ltb_ℤ (shr_one CURVE.order) s_int then CURVE.order -ℤ s_int else s_int

  unfoldable pub signature_of_ints : ℤ × ℤ → Result Signature
  unfolding normalize_s CurveScalar.from_int
  signature_of_ints (r_int, s_int) = do
    r ← CurveScalar.from_int r_int false
    s ← CurveScalar.from_int (normalize_s s_int) false
    ok (record { r = r; s = s })

  unfoldable pub sign_digest : Signer → Hash → Random Signature
  unfolding ecdsa_sign Hash.finalize signature_of_ints
  sign_digest self digest =
      let secret_bn = self.secret_key.scalar_key.backend_bignum in
      ecdsa_sign CURVE secret_bn (Hash.finalize digest) >>=ᵣ λ ints. lift (signature_of_ints ints)

  unfoldable pub sign : Signer → Bytes → Random Signature
  unfolding digest_for_signing sign_digest
  sign self message = lift (digest_for_signing message) >>=ᵣ λ digest. sign_digest self digest

  unfoldable pub verify_digest : Signature → PublicKey → Hash → Result Bool
  unfolding ecdsa_verify CurveScalar.to_int Hash.finalize
  verify_digest self verifying_pk digest =
      ecdsa_verify CURVE (CurveScalar.to_int self.r) (CurveScalar.to_int self.s)
        verifying_pk.point_key.backend_point (Hash.finalize digest)

  unfoldable pub verify : Signature → PublicKey → Bytes → Result Bool
  unfolding digest_for_signing verify_digest
  verify self verifying_pk message = do
    digest ← digest_for_signing message
    verify_digest self verifying_pk digest

  abbrev pub signature_types : List Component
  signature_types =
      record { Carrier = CurveScalar; serial = scalar_serial }
      ∷ record { Carrier = CurveScalar; serial = scalar_serial }
      ∷ []

  unfoldable pub signature_from_exact_bytes : Bytes → Result Signature
  unfolding split
  signature_from_exact_bytes bs = do
    objs ← split signature_types bs
    ok (record { r = objs.0; s = objs.1.0 })

  unfoldable pub signature_serial : Serial Signature
  unfolding total_size signature_from_exact_bytes join
  signature_serial = record {
    serialized_size = total_size signature_types;
    from_exact_bytes = signature_from_exact_bytes;
    to_bytes = λ self. join signature_types (self.r, (self.s, tt));
  }

  unfoldable pub signature_bytes : Signature → Result Bytes
  unfolding join
  signature_bytes self = join signature_types (self.r, (self.s, tt))

  -- `Signature.__str__`
  unfoldable pub signature_str : Signature → Result Bytes
  unfolding signature_bytes short_str
  signature_str self = do bs ← signature_bytes self; ok (short_str (b "Signature") bs)

  -- `Signature.__hash__`
  unfoldable pub signature_hash : Signature → Result ℤ
  unfolding signature_bytes
  signature_hash self = do bs ← signature_bytes self; ok (lib.hash_of (b "Signature") bs)
