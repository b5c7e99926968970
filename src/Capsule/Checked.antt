-- ===== src/Capsule/Checked.antt =====
-- Reading a capsule: `from_bytes` accepts exactly the capsules that carry a valid signature.
use nucypher_kms_umbral.Prelude.{
  ◌≡◌, ◌≢◌, refl, ◌⊎◌, inl, inr, true, false, ok, err, value_error, length, arith, ◌==◌,
}
use nucypher_kms_umbral.Prelude.Bytes.{Bytes}
use nucypher_kms_umbral.Prelude.Residue.{Residue}
use nucypher_kms_umbral.Backend.Interface.{Backend}
use nucypher_kms_umbral.Backend.Laws.{BignumLaws, CurveLaws, EncodingLaws}
use nucypher_kms_umbral.Openssl.Secp256k1.{secp256k1, scalar_modulus}
use nucypher_kms_umbral.Serializable.Defs.{Objects, from_bytes, split, total_size}
use nucypher_kms_umbral.Serializable.RoundTrip.{
  AllRoundTrip, joined, join-joined, length-joined, split-joined,
}
use nucypher_kms_umbral.CurveScalar.Arithmetic.{scalar}
use nucypher_kms_umbral.CurveScalar.RoundTrip.{scalar-RoundTrips}
use nucypher_kms_umbral.CurvePoint.Defs.{generator}
use nucypher_kms_umbral.CurvePoint.Arithmetic.{
  pt, smul, mul-pt, add-pt, eq-pt_same, eq-pt_differ, point_dec,
}
use nucypher_kms_umbral.CurvePoint.RoundTrip.{point-RoundTrips}
use nucypher_kms_umbral.Hashing.Defs.{hash_capsule_points}
use nucypher_kms_umbral.Capsule.Defs.{
  Capsule, capsule_types, capsule_bytes, capsule_serial, capsule_from_exact_bytes, verify,
}

module _ ⦃lib : Backend⦄ ⦃bignum : BignumLaws⦄ ⦃curve : CurveLaws⦄ ⦃encoding : EncodingLaws⦄ where
  open curve use {plus, generator as g, identity}

  -- The equation of a capsule's signature.
  abbrev pub IsSigned : lib.Point → lib.Point → Residue → Residue → Type 0
  IsSigned e v s h = smul s g ≡ plus v (smul h e)

  module _ (e v : lib.Point) (s h : Residue)
      (hashed : hash_capsule_points (pt e) (pt v) ≡ ok (scalar h)) where
    abbrev capsule : Capsule
    capsule = record { point_e = pt e; point_v = pt v; signature = scalar s }

    verify_lem :
        ((verify capsule ≡ ok true) × IsSigned e v s h)
        ⊎ ((verify capsule ≡ ok false) × ¬ IsSigned e v s h)
    unfolding verify generator
    verify_lem = elim (point_dec (smul s g) (plus v (smul h e))) [
      | inl q ↦ inl (rw (hashed, mul-pt g s, mul-pt e h, add-pt, q) (eq-pt_same _), q)
      | inr ne ↦ inr (rw (hashed, mul-pt g s, mul-pt e h, add-pt) (eq-pt_differ _ _ ne), ne)
    ]

    -- Let `h` be the hash of two points other than the identity. The capsule of the points and of
    -- any scalar is written, and `from_bytes` reads the bytes back as the capsule if the signature
    -- equation holds, and raises a ValueError if it does not.
    pub from_bytes-capsule :
        e ≢ identity
        → v ≢ identity
        → (bs : Bytes) × (capsule_bytes
              (record { point_e = pt e; point_v = pt v; signature = scalar s })
            ≡ ok bs)
          × (((from_bytes capsule_serial bs
                  ≡ ok (record { point_e = pt e; point_v = pt v; signature = scalar s }))
                × IsSigned e v s h)
              ⊎ ((from_bytes capsule_serial bs
                    ≡ err (value_error "Capsule self-verification failed."))
                  × ¬ IsSigned e v s h))
    unfolding capsule_bytes from_bytes capsule_serial capsule_from_exact_bytes
    from_bytes-capsule he hv = (
      bs,
      join-joined capsule_types objs parts,
      elim verify_lem [
        | inl (t, q) ↦ inl (rw (sized, cut, t) refl, q)
        | inr (t, ne) ↦ inr (rw (sized, cut, t) refl, ne)
      ],
    )
      where
        objs : Objects capsule_types
        objs = (pt e, (pt v, (scalar s, tt)))

        parts : AllRoundTrip capsule_types objs
        parts = (point-RoundTrips e he, (point-RoundTrips v hv, (scalar-RoundTrips s, tt)))

        bs : Bytes
        bs = joined capsule_types objs parts

        sized : (length bs == total_size capsule_types) ≡ true
        sized = ground (arith, length-joined capsule_types objs parts)

        cut : split capsule_types bs ≡ ok objs
        cut = split-joined capsule_types objs parts
