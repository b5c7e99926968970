-- ===== src/CapsuleFrag/Defs.antt =====
-- The classes of umbral/capsule_frag.py.
use nucypher_kms_umbral.Prelude.{
  ℕ, ℤ, Bool, not, ◌&&◌, some, List, [], ◌∷◌, Result, ok, verification_error, raise_if, and_then,
  ◌>>=◌, ◌>>◌,
}
use nucypher_kms_umbral.Prelude.Bytes.{b, short_str, Bytes}
use nucypher_kms_umbral.Backend.Interface.{Backend}
use nucypher_kms_umbral.Backend.Random.{Random, lift, return, ◌>>=◌ as ◌>>=ᵣ◌}
use nucypher_kms_umbral.Openssl.Curve.{Curve}
use nucypher_kms_umbral.CurveScalar.Defs as CurveScalar
use nucypher_kms_umbral.CurveScalar.Defs.{CurveScalar, scalar_serial}
use nucypher_kms_umbral.CurvePoint.Defs as CurvePoint
use nucypher_kms_umbral.CurvePoint.Defs.{CurvePoint, point_serial}
use nucypher_kms_umbral.Serializable.Defs.{Serial, Component, split, join, total_size}
use nucypher_kms_umbral.Keys.Defs.{PublicKey}
use nucypher_kms_umbral.Signing.Defs as Signing
use nucypher_kms_umbral.Signing.Defs.{Signature, signature_serial, signature_eq}
use nucypher_kms_umbral.Hashing.Defs.{hash_to_cfrag_verification, kfrag_signature_message}
use nucypher_kms_umbral.Hashing.ToPoint.{Parameters}
use nucypher_kms_umbral.Capsule.Defs.{Capsule}
use nucypher_kms_umbral.KeyFrag.Id.{KeyFragId, id_serial, id_eq}
use nucypher_kms_umbral.KeyFrag.Defs.{KeyFrag}

module _ ⦃lib : Backend⦄ where
  pub record CapsuleFragProof : Type 0 where
    pub point_e2 : CurvePoint
    pub point_v2 : CurvePoint
    pub kfrag_commitment : CurvePoint
    pub kfrag_pok : CurvePoint
    pub signature : CurveScalar
    pub kfrag_signature : Signature

  pub record CapsuleFrag : Type 0 where
    pub point_e1 : CurvePoint
    pub point_v1 : CurvePoint
    pub kfrag_id : KeyFragId
    pub precursor : CurvePoint
    pub proof : CapsuleFragProof

  pub record VerifiedCapsuleFrag : Type 0 where
    pub cfrag : CapsuleFrag

module _ ⦃lib : Backend⦄ ⦃CURVE : Curve⦄ where
  abbrev pub proof_types : List Component
  proof_types =
      record { Carrier = CurvePoint; serial = point_serial }
      ∷ record { Carrier = CurvePoint; serial = point_serial }
      ∷ record { Carrier = CurvePoint; serial = point_serial }
      ∷ record { Carrier = CurvePoint; serial = point_serial }
      ∷ record { Carrier = CurveScalar; serial = scalar_serial }
      ∷ record { Carrier = Signature; serial = signature_serial }
      ∷ []

  -- `CapsuleFragProof._from_exact_bytes`
  unfoldable pub proof_from_exact_bytes : Bytes → Result CapsuleFragProof
  unfolding split
  proof_from_exact_bytes bs = do
    objs ← split proof_types bs
    ok (record {
      point_e2 = objs.0;
      point_v2 = objs.1.0;
      kfrag_commitment = objs.1.1.0;
      kfrag_pok = objs.1.1.1.0;
      signature = objs.1.1.1.1.0;
      kfrag_signature = objs.1.1.1.1.1.0;
    })

  unfoldable pub proof_bytes : CapsuleFragProof → Result Bytes
  unfolding join
  proof_bytes self = join proof_types (
    self.point_e2,
    (
      self.point_v2,
      (self.kfrag_commitment, (self.kfrag_pok, (self.signature, (self.kfrag_signature, tt)))),
    ),
  )

  unfoldable pub proof_serial : Serial CapsuleFragProof
  unfolding total_size proof_from_exact_bytes proof_bytes
  proof_serial = record {
    serialized_size = total_size proof_types;
    from_exact_bytes = proof_from_exact_bytes;
    to_bytes = proof_bytes;
  }

  -- `CapsuleFragProof.__eq__`
  unfoldable pub proof_eq : CapsuleFragProof → CapsuleFragProof → Result Bool
  unfolding CurvePoint.eq CurveScalar.eq signature_eq
  proof_eq self other = and_then (CurvePoint.eq self.point_e2 other.point_e2) (
      and_then (CurvePoint.eq self.point_v2 other.point_v2) (
        and_then (CurvePoint.eq self.kfrag_commitment other.kfrag_commitment) (
          and_then (CurvePoint.eq self.kfrag_pok other.kfrag_pok) (
            ok (
              CurveScalar.eq self.signature other.signature
              && signature_eq self.kfrag_signature other.kfrag_signature)))))

  abbrev pub cfrag_types : List Component
  cfrag_types =
      record { Carrier = CurvePoint; serial = point_serial }
      ∷ record { Carrier = CurvePoint; serial = point_serial }
      ∷ record { Carrier = KeyFragId; serial = id_serial }
      ∷ record { Carrier = CurvePoint; serial = point_serial }
      ∷ record { Carrier = CapsuleFragProof; serial = proof_serial }
      ∷ []

  -- `CapsuleFrag._from_exact_bytes`
  unfoldable pub cfrag_from_exact_bytes : Bytes → Result CapsuleFrag
  unfolding split
  cfrag_from_exact_bytes bs = do
    objs ← split cfrag_types bs
    ok (record {
      point_e1 = objs.0;
      point_v1 = objs.1.0;
      kfrag_id = objs.1.1.0;
      precursor = objs.1.1.1.0;
      proof = objs.1.1.1.1.0;
    })

  unfoldable pub cfrag_bytes : CapsuleFrag → Result Bytes
  unfolding join
  cfrag_bytes self =
      join cfrag_types
        (self.point_e1, (self.point_v1, (self.kfrag_id, (self.precursor, (self.proof, tt)))))

  unfoldable pub cfrag_serial : Serial CapsuleFrag
  unfolding total_size cfrag_from_exact_bytes cfrag_bytes
  cfrag_serial = record {
    serialized_size = total_size cfrag_types;
    from_exact_bytes = cfrag_from_exact_bytes;
    to_bytes = cfrag_bytes;
  }

  -- `CapsuleFrag.__hash__` and `CapsuleFrag.__str__`
  unfoldable pub cfrag_hash : CapsuleFrag → Result ℤ
  unfolding cfrag_bytes
  cfrag_hash self = do bs ← cfrag_bytes self; ok (lib.hash_of (b "CapsuleFrag") bs)

  unfoldable pub cfrag_str : CapsuleFrag → Result Bytes
  unfolding cfrag_bytes short_str
  cfrag_str self = do bs ← cfrag_bytes self; ok (short_str (b "CapsuleFrag") bs)

  -- `CapsuleFrag.__eq__`
  unfoldable pub cfrag_eq : CapsuleFrag → CapsuleFrag → Result Bool
  unfolding CurvePoint.eq id_eq proof_eq
  cfrag_eq self other = and_then (CurvePoint.eq self.point_e1 other.point_e1) (
      and_then (CurvePoint.eq self.point_v1 other.point_v1) (
        and_then (ok (id_eq self.kfrag_id other.kfrag_id)) (
          and_then (CurvePoint.eq self.precursor other.precursor)
            (proof_eq self.proof other.proof))))

  -- `VerifiedCapsuleFrag` hands its methods on to the fragment that it holds.
  unfoldable pub verified_cfrag_bytes : VerifiedCapsuleFrag → Result Bytes
  unfolding cfrag_bytes
  verified_cfrag_bytes self = cfrag_bytes self.cfrag

  unfoldable pub verified_cfrag_serialized_size : ℕ
  unfolding total_size
  verified_cfrag_serialized_size = total_size cfrag_types

  unfoldable pub verified_cfrag_eq : VerifiedCapsuleFrag → VerifiedCapsuleFrag → Result Bool
  unfolding cfrag_eq
  verified_cfrag_eq self other = cfrag_eq self.cfrag other.cfrag

  -- `VerifiedCapsuleFrag.__hash__` and `VerifiedCapsuleFrag.__str__`
  unfoldable pub verified_cfrag_hash : VerifiedCapsuleFrag → Result ℤ
  unfolding verified_cfrag_bytes
  verified_cfrag_hash self = do
    bs ← verified_cfrag_bytes self
    ok (lib.hash_of (b "VerifiedCapsuleFrag") bs)

  unfoldable pub verified_cfrag_str : VerifiedCapsuleFrag → Result Bytes
  unfolding verified_cfrag_bytes short_str
  verified_cfrag_str self = do
    bs ← verified_cfrag_bytes self
    ok (short_str (b "VerifiedCapsuleFrag") bs)

  module _ ⦃params : Parameters⦄ where
    -- What `from_kfrag_and_cfrag` does once `t` is drawn.
    unfoldable pub prove :
        Capsule → KeyFrag → CurvePoint → CurvePoint → CurveScalar → Result CapsuleFragProof
    unfolding CurvePoint.mul CurveScalar.mul CurveScalar.add hash_to_cfrag_verification
    prove capsule kfrag e1 v1 t = do
      let rk = kfrag.key
      let e = capsule.point_e
      let v = capsule.point_v
      let u = params.u
      let u1 = kfrag.proof.commitment
      e2 ← CurvePoint.mul e t
      v2 ← CurvePoint.mul v t
      u2 ← CurvePoint.mul u t
      h ← hash_to_cfrag_verification (e ∷ e1 ∷ e2 ∷ v ∷ v1 ∷ v2 ∷ u ∷ u1 ∷ u2 ∷ [])
      product ← CurveScalar.mul rk h
      z3 ← CurveScalar.add t product
      ok (record {
        point_e2 = e2;
        point_v2 = v2;
        kfrag_commitment = u1;
        kfrag_pok = u2;
        signature = z3;
        kfrag_signature = kfrag.proof.signature_for_receiver;
      })

    unfoldable pub from_kfrag_and_cfrag :
        Capsule → KeyFrag → CurvePoint → CurvePoint → Random CapsuleFragProof
    unfolding CurveScalar.random_nonzero prove
    from_kfrag_and_cfrag capsule kfrag cfrag_e1 cfrag_v1 =
        CurveScalar.random_nonzero >>=ᵣ λ t. lift (prove capsule kfrag cfrag_e1 cfrag_v1 t)

    unfoldable pub reencrypted : Capsule → KeyFrag → Random CapsuleFrag
    unfolding CurvePoint.mul from_kfrag_and_cfrag
    reencrypted capsule kfrag = lift (CurvePoint.mul capsule.point_e kfrag.key) >>=ᵣ λ e1.
        lift (CurvePoint.mul capsule.point_v kfrag.key) >>=ᵣ λ v1.
        from_kfrag_and_cfrag capsule kfrag e1 v1 >>=ᵣ λ proof. return (record {
          point_e1 = e1;
          point_v1 = v1;
          kfrag_id = kfrag.id;
          precursor = kfrag.precursor;
          proof = proof;
        })

    -- One of the three equations that `verify` checks: `p * z == p2 + p1 * h`.
    unfoldable pub check_part :
        CurvePoint → CurvePoint → CurvePoint → CurveScalar → CurveScalar → Result Bool
    unfolding CurvePoint.mul CurvePoint.add CurvePoint.eq
    check_part p p1 p2 z h = do
      left ← CurvePoint.mul p z
      product ← CurvePoint.mul p1 h
      right ← CurvePoint.add p2 product
      CurvePoint.eq left right

    -- `CapsuleFrag.verify`
    unfoldable pub verify :
        CapsuleFrag → Capsule → PublicKey → PublicKey → PublicKey → Result VerifiedCapsuleFrag
    unfolding hash_to_cfrag_verification kfrag_signature_message Signing.verify check_part
    verify self capsule verifying_pk delegating_pk receiving_pk = do
      let e = capsule.point_e
      let v = capsule.point_v
      let e1 = self.point_e1
      let v1 = self.point_v1
      let u = params.u
      let u1 = self.proof.kfrag_commitment
      let e2 = self.proof.point_e2
      let v2 = self.proof.point_v2
      let u2 = self.proof.kfrag_pok
      h ← hash_to_cfrag_verification (e ∷ e1 ∷ e2 ∷ v ∷ v1 ∷ v2 ∷ u ∷ u1 ∷ u2 ∷ [])
      kfrag_message ←
          kfrag_signature_message self.kfrag_id u1 self.precursor (some delegating_pk)
            (some receiving_pk)
      signed ← Signing.verify self.proof.kfrag_signature verifying_pk kfrag_message
      raise_if (not signed) (verification_error "Invalid KeyFrag signature")
      let z = self.proof.signature
      correct_reencryption_of_e ← check_part e e1 e2 z h
      correct_reencryption_of_v ← check_part v v1 v2 z h
      correct_rk_commitment ← check_part u u1 u2 z h
      raise_if
          (not (correct_reencryption_of_e && (correct_reencryption_of_v && correct_rk_commitment)))
          (verification_error "Failed to verify reencryption proof")
      ok (record { cfrag = self })
