-- ===== src/KeyFrag/Defs.antt =====
-- The classes `KeyFragProof`, `KeyFrag` and `VerifiedKeyFrag` of umbral/key_frag.py, and its
-- verification.
use nucypher_kms_umbral.Prelude.{
  ℕ, ℤ, Bool, not, ◌&&◌, Option, none, some, List, [], ◌∷◌, Result, ok, if◌then◌else◌,
  verification_error, raise_if, and_then, false, true, ◌>>=◌, ◌>>◌,
}
use nucypher_kms_umbral.Prelude.Bytes.{b, short_str, Bytes}
use nucypher_kms_umbral.Backend.Interface.{Backend}
use nucypher_kms_umbral.Openssl.Curve.{Curve}
use nucypher_kms_umbral.CurveScalar.Defs as CurveScalar
use nucypher_kms_umbral.CurveScalar.Defs.{CurveScalar, scalar_serial}
use nucypher_kms_umbral.CurvePoint.Defs as CurvePoint
use nucypher_kms_umbral.CurvePoint.Defs.{CurvePoint, point_serial}
use nucypher_kms_umbral.Serializable.Defs.{
  Serial, Component, split, join, total_size, bool_serial, from_bytes,
}
use nucypher_kms_umbral.Keys.Defs.{PublicKey}
use nucypher_kms_umbral.Signing.Defs as Signing
use nucypher_kms_umbral.Signing.Defs.{Signature, signature_serial, signature_eq}
use nucypher_kms_umbral.Hashing.Defs.{kfrag_signature_message}
use nucypher_kms_umbral.Hashing.ToPoint.{Parameters}
use nucypher_kms_umbral.KeyFrag.Id.{KeyFragId, id_serial, id_eq}

-- `==` between booleans.
abbrev pub bool_eq : Bool → Bool → Bool
bool_eq x y = if x then y else not y

-- `pk if flag else None`
abbrev pub given_if {ℓ} : {A : Type ℓ} → Bool → Option A → Option A
given_if flag pk = if flag then pk else none

abbrev pub is_none {ℓ} : {A : Type ℓ} → Option A → Bool
is_none none = true
is_none (some a) = false

module _ ⦃lib : Backend⦄ where
  pub record KeyFragProof : Type 0 where
    pub commitment : CurvePoint
    pub signature_for_proxy : Signature
    pub signature_for_receiver : Signature
    pub delegating_key_signed : Bool
    pub receiving_key_signed : Bool

  pub record KeyFrag : Type 0 where
    pub id : KeyFragId
    pub key : CurveScalar
    pub precursor : CurvePoint
    pub proof : KeyFragProof

  pub record VerifiedKeyFrag : Type 0 where
    pub kfrag : KeyFrag

module _ ⦃lib : Backend⦄ ⦃CURVE : Curve⦄ where
  abbrev pub proof_types : List Component
  proof_types =
      record { Carrier = CurvePoint; serial = point_serial }
      ∷ record { Carrier = Signature; serial = signature_serial }
      ∷ record { Carrier = Signature; serial = signature_serial }
      ∷ record { Carrier = Bool; serial = bool_serial }
      ∷ record { Carrier = Bool; serial = bool_serial }
      ∷ []

  unfoldable pub proof_from_exact_bytes : Bytes → Result KeyFragProof
  unfolding split
  proof_from_exact_bytes bs = do
    objs ← split proof_types bs
    ok (record {
      commitment = objs.0;
      signature_for_proxy = objs.1.0;
      signature_for_receiver = objs.1.1.0;
      delegating_key_signed = objs.1.1.1.0;
      receiving_key_signed = objs.1.1.1.1.0;
    })

  unfoldable pub proof_bytes : KeyFragProof → Result Bytes
  unfolding join
  proof_bytes self = join proof_types (
    self.commitment,
    (
      self.signature_for_proxy,
      (self.signature_for_receiver, (self.delegating_key_signed, (self.receiving_key_signed, tt))),
    ),
  )

  unfoldable pub proof_serial : Serial KeyFragProof
  unfolding total_size proof_from_exact_bytes proof_bytes
  proof_serial = record {
    serialized_size = total_size proof_types;
    from_exact_bytes = proof_from_exact_bytes;
    to_bytes = proof_bytes;
  }

  -- `KeyFragProof.__eq__`
  unfoldable pub proof_eq : KeyFragProof → KeyFragProof → Result Bool
  unfolding CurvePoint.eq signature_eq
  proof_eq self other = and_then (CurvePoint.eq self.commitment other.commitment) (
      ok (
        signature_eq self.signature_for_proxy other.signature_for_proxy
        && (signature_eq self.signature_for_receiver other.signature_for_receiver
            && (bool_eq self.delegating_key_signed other.delegating_key_signed
                && bool_eq self.receiving_key_signed other.receiving_key_signed))))

  abbrev pub kfrag_types : List Component
  kfrag_types =
      record { Carrier = KeyFragId; serial = id_serial }
      ∷ record { Carrier = CurveScalar; serial = scalar_serial }
      ∷ record { Carrier = CurvePoint; serial = point_serial }
      ∷ record { Carrier = KeyFragProof; serial = proof_serial }
      ∷ []

  unfoldable pub kfrag_from_exact_bytes : Bytes → Result KeyFrag
  unfolding split
  kfrag_from_exact_bytes bs = do
    objs ← split kfrag_types bs
    ok (record { id = objs.0; key = objs.1.0; precursor = objs.1.1.0; proof = objs.1.1.1.0 })

  unfoldable pub kfrag_bytes : KeyFrag → Result Bytes
  unfolding join
  kfrag_bytes self = join kfrag_types (self.id, (self.key, (self.precursor, (self.proof, tt))))

  unfoldable pub kfrag_serial : Serial KeyFrag
  unfolding total_size kfrag_from_exact_bytes kfrag_bytes
  kfrag_serial = record {
    serialized_size = total_size kfrag_types;
    from_exact_bytes = kfrag_from_exact_bytes;
    to_bytes = kfrag_bytes;
  }

  -- `KeyFrag.__eq__`
  unfoldable pub kfrag_eq : KeyFrag → KeyFrag → Result Bool
  unfolding id_eq CurveScalar.eq CurvePoint.eq proof_eq
  kfrag_eq self other =
      and_then (ok (id_eq self.id other.id && CurveScalar.eq self.key other.key))
        (and_then (CurvePoint.eq self.precursor other.precursor) (proof_eq self.proof other.proof))

  -- `KeyFrag.__hash__` and `KeyFrag.__str__`
  unfoldable pub kfrag_hash : KeyFrag → Result ℤ
  unfolding kfrag_bytes
  kfrag_hash self = do bs ← kfrag_bytes self; ok (lib.hash_of (b "KeyFrag") bs)

  unfoldable pub kfrag_str : KeyFrag → Result Bytes
  unfolding kfrag_bytes short_str
  kfrag_str self = do bs ← kfrag_bytes self; ok (short_str (b "KeyFrag") bs)

  -- `VerifiedKeyFrag` hands its methods on to the fragment that it holds.
  unfoldable pub verified_kfrag_bytes : VerifiedKeyFrag → Result Bytes
  unfolding kfrag_bytes
  verified_kfrag_bytes self = kfrag_bytes self.kfrag

  unfoldable pub verified_kfrag_serialized_size : ℕ
  unfolding total_size
  verified_kfrag_serialized_size = total_size kfrag_types

  unfoldable pub verified_kfrag_eq : VerifiedKeyFrag → VerifiedKeyFrag → Result Bool
  unfolding kfrag_eq
  verified_kfrag_eq self other = kfrag_eq self.kfrag other.kfrag

  -- `VerifiedKeyFrag.__hash__` and `VerifiedKeyFrag.__str__`
  unfoldable pub verified_kfrag_hash : VerifiedKeyFrag → Result ℤ
  unfolding verified_kfrag_bytes
  verified_kfrag_hash self = do
    bs ← verified_kfrag_bytes self
    ok (lib.hash_of (b "VerifiedKeyFrag") bs)

  unfoldable pub verified_kfrag_str : VerifiedKeyFrag → Result Bytes
  unfolding verified_kfrag_bytes short_str
  verified_kfrag_str self = do
    bs ← verified_kfrag_bytes self
    ok (short_str (b "VerifiedKeyFrag") bs)

  -- `VerifiedKeyFrag.from_verified_bytes`
  unfoldable pub from_verified_bytes : Bytes → Result VerifiedKeyFrag
  unfolding from_bytes kfrag_serial
  from_verified_bytes bs = do kfrag ← from_bytes kfrag_serial bs; ok (record { kfrag = kfrag })

  module _ ⦃params : Parameters⦄ where
    -- `KeyFrag.verify`
    unfoldable pub verify :
        KeyFrag → PublicKey → Option PublicKey → Option PublicKey → Result VerifiedKeyFrag
    unfolding CurvePoint.mul CurvePoint.eq kfrag_signature_message Signing.verify
    verify self verifying_pk delegating_pk receiving_pk = do
      let proof = self.proof
      expected ← CurvePoint.mul params.u self.key
      committed ← CurvePoint.eq proof.commitment expected
      raise_if (not committed) (verification_error "Invalid kfrag commitment")
      raise_if (proof.delegating_key_signed && is_none delegating_pk)
          (verification_error "A signature of a delegating key was included in this kfrag")
      raise_if (proof.receiving_key_signed && is_none receiving_pk)
          (verification_error "A signature of a receiving key was included in this kfrag")
      kfrag_message ←
          kfrag_signature_message self.id proof.commitment self.precursor
            (given_if proof.delegating_key_signed delegating_pk)
            (given_if proof.receiving_key_signed receiving_pk)
      signed ← Signing.verify proof.signature_for_proxy verifying_pk kfrag_message
      raise_if (not signed) (verification_error "Failed to verify the kfrag signature")
      ok (record { kfrag = self })
