-- ===== src/Capsule/Defs.antt =====
-- The class `Capsule` of umbral/capsule.py, without `open_reencrypted`.
use nucypher_kms_umbral.Prelude.{
  ℤ, Bool, not, List, [], ◌∷◌, Result, ok, value_error, raise_if, and_then, ◌>>=◌, ◌>>◌,
}
use nucypher_kms_umbral.Prelude.Bytes.{b, short_str, Bytes}
use nucypher_kms_umbral.Backend.Interface.{Backend}
use nucypher_kms_umbral.Backend.Random.{Random, lift, ◌>>=◌ as ◌>>=ᵣ◌}
use nucypher_kms_umbral.Openssl.Curve.{Curve}
use nucypher_kms_umbral.CurveScalar.Defs as CurveScalar
use nucypher_kms_umbral.CurveScalar.Defs.{CurveScalar, scalar_serial}
use nucypher_kms_umbral.CurvePoint.Defs as CurvePoint
use nucypher_kms_umbral.CurvePoint.Defs.{CurvePoint, point_serial}
use nucypher_kms_umbral.Serializable.Defs.{Serial, Component, split, join, total_size}
use nucypher_kms_umbral.Keys.Defs.{PublicKey, SecretKey}
use nucypher_kms_umbral.Hashing.Defs.{hash_capsule_points}

module _ ⦃lib : Backend⦄ where
  pub record Capsule : Type 0 where
    pub point_e : CurvePoint
    pub point_v : CurvePoint
    pub signature : CurveScalar

module _ ⦃lib : Backend⦄ ⦃CURVE : Curve⦄ where
  -- `_verify`
  unfoldable pub verify : Capsule → Result Bool
  unfolding hash_capsule_points CurvePoint.mul CurvePoint.add CurvePoint.eq CurvePoint.generator
  verify self = do
    h ← hash_capsule_points self.point_e self.point_v
    left ← CurvePoint.mul CurvePoint.generator self.signature
    product ← CurvePoint.mul self.point_e h
    right ← CurvePoint.add self.point_v product
    CurvePoint.eq left right

  abbrev pub capsule_types : List Component
  capsule_types =
      record { Carrier = CurvePoint; serial = point_serial }
      ∷ record { Carrier = CurvePoint; serial = point_serial }
      ∷ record { Carrier = CurveScalar; serial = scalar_serial }
      ∷ []

  unfoldable pub capsule_from_exact_bytes : Bytes → Result Capsule
  unfolding split verify
  capsule_from_exact_bytes bs = do
    objs ← split capsule_types bs
    let capsule : Capsule = record { point_e = objs.0; point_v = objs.1.0; signature = objs.1.1.0 }
    verified ← verify capsule
    raise_if (not verified) (value_error "Capsule self-verification failed.")
    ok capsule

  unfoldable pub capsule_bytes : Capsule → Result Bytes
  unfolding join
  capsule_bytes self = join capsule_types (self.point_e, (self.point_v, (self.signature, tt)))

  unfoldable pub capsule_serial : Serial Capsule
  unfolding total_size capsule_from_exact_bytes capsule_bytes
  capsule_serial = record {
    serialized_size = total_size capsule_types;
    from_exact_bytes = capsule_from_exact_bytes;
    to_bytes = capsule_bytes;
  }

  -- What `from_public_key` does once `priv_r` and `priv_u` are drawn.
  unfoldable pub encapsulate :
      PublicKey
      → CurveScalar
      → CurvePoint
      → CurveScalar
      → CurvePoint
      → Result (Capsule × CurvePoint)
  unfolding hash_capsule_points CurvePoint.mul CurveScalar.mul CurveScalar.add
  encapsulate delegating_pk priv_r pub_r priv_u pub_u = do
    h ← hash_capsule_points pub_r pub_u
    product ← CurveScalar.mul priv_r h
    s ← CurveScalar.add priv_u product
    sum ← CurveScalar.add priv_r priv_u
    shared_key ← CurvePoint.mul delegating_pk.point_key sum
    ok (record { point_e = pub_r; point_v = pub_u; signature = s }, shared_key)

  unfoldable pub from_public_key : PublicKey → Random (Capsule × CurvePoint)
  unfolding CurveScalar.random_nonzero CurvePoint.mul CurvePoint.generator encapsulate
  from_public_key delegating_pk = CurveScalar.random_nonzero >>=ᵣ λ priv_r.
      lift (CurvePoint.mul CurvePoint.generator priv_r) >>=ᵣ λ pub_r.
      CurveScalar.random_nonzero >>=ᵣ λ priv_u.
      lift (CurvePoint.mul CurvePoint.generator priv_u) >>=ᵣ λ pub_u.
      lift (encapsulate delegating_pk priv_r pub_r priv_u pub_u)

  unfoldable pub open_original : Capsule → SecretKey → Result CurvePoint
  unfolding CurvePoint.add CurvePoint.mul
  open_original self delegating_sk = do
    sum ← CurvePoint.add self.point_e self.point_v
    CurvePoint.mul sum delegating_sk.scalar_key

  -- `Capsule.__eq__`
  unfoldable pub capsule_eq : Capsule → Capsule → Result Bool
  unfolding CurvePoint.eq CurveScalar.eq
  capsule_eq self other = and_then (CurvePoint.eq self.point_e other.point_e) (
      and_then (CurvePoint.eq self.point_v other.point_v)
        (ok (CurveScalar.eq self.signature other.signature)))

  -- `Capsule.__hash__` and `Capsule.__str__`
  unfoldable pub capsule_hash : Capsule → Result ℤ
  unfolding capsule_bytes
  capsule_hash self = do bs ← capsule_bytes self; ok (lib.hash_of (b "Capsule") bs)

  unfoldable pub capsule_str : Capsule → Result Bytes
  unfolding capsule_bytes short_str
  capsule_str self = do bs ← capsule_bytes self; ok (short_str (b "Capsule") bs)
