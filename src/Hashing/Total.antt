-- ===== src/Hashing/Total.antt =====
-- Every hash of the scheme has a value.
use nucypher_kms_umbral.Prelude.{
  ◌≡◌, refl, ◌^◌, true, false, some, none, Option, List, [], ◌∷◌, ◌++◌, ok, ltb, length,
}
use nucypher_kms_umbral.Prelude.Bytes.{Bytes, b, to_bytes, be_digits}
use nucypher_kms_umbral.Prelude.Residue.{Residue}
use nucypher_kms_umbral.Backend.Interface.{Backend}
use nucypher_kms_umbral.Backend.Laws.{BignumLaws, CurveLaws, EncodingLaws}
use nucypher_kms_umbral.Openssl.Secp256k1.{secp256k1, scalar_modulus}
use nucypher_kms_umbral.Hash.{Hash, init, update}
use nucypher_kms_umbral.CurveScalar.Arithmetic.{scalar, digest_residue, from_digest_lem}
use nucypher_kms_umbral.CurvePoint.Defs.{CurvePoint}
use nucypher_kms_umbral.CurvePoint.Arithmetic.{to_bytes-pt}
use nucypher_kms_umbral.Keys.Defs.{PublicKey}
use nucypher_kms_umbral.Serializable.Defs.{bool_bytes}
use mathlib.Core.List.{flatten}
use nucypher_kms_umbral.KeyFrag.Id.{KeyFragId}
use nucypher_kms_umbral.Hashing.Defs.{
  update_points, hash_to_polynomial_arg, hash_capsule_points, hash_to_shared_secret,
  hash_to_cfrag_verification, key_part, kfrag_signature_message,
}

module _ ⦃lib : Backend⦄ ⦃bignum : BignumLaws⦄ ⦃curve : CurveLaws⦄ ⦃encoding : EncodingLaws⦄ where
  update_points-ok :
      (digest : Hash) (points : List CurvePoint)
      → (digest' : Hash) × (update_points digest points ≡ ok digest')
  unfolding update_points
  update_points-ok digest [] = (digest, refl)
  update_points-ok digest (point ∷ points) =
      let (bs, written) = to_bytes-pt point.backend_point in
      let (digest', e) = update_points-ok (update digest bs) points in (digest', rw written e)

  -- A tag is shorter than 2^32 bytes, so its length is written in four.
  init-ok :
      (tag : Bytes)
      → ltb (length tag) (256 ^ 4) ≡ true
      → (digest : Hash) × (init (some tag) ≡ ok digest)
  unfolding init to_bytes be_digits
  init-ok tag short =
      (update (record { hash = lib.hash_new }) (be_digits 4 (length tag) ++ tag), rw short)

  pub hash_to_polynomial_arg-scalar :
      (precursor pubkey dh_point : CurvePoint) (kfrag_id : KeyFragId)
      → (x : Residue) × (hash_to_polynomial_arg precursor pubkey dh_point kfrag_id ≡ ok (scalar x))
  unfolding hash_to_polynomial_arg
  hash_to_polynomial_arg-scalar precursor pubkey dh_point kfrag_id =
      let (start, i) = init-ok (b "POLYNOMIAL_ARG") refl in
      let (digest, e) = update_points-ok start (precursor ∷ pubkey ∷ dh_point ∷ []) in
      (digest_residue (update digest kfrag_id.id), rw (i, e) (from_digest_lem _))

  pub hash_capsule_points-scalar :
      (e v : CurvePoint) → (h : Residue) × (hash_capsule_points e v ≡ ok (scalar h))
  unfolding hash_capsule_points
  hash_capsule_points-scalar e v =
      let (start, i) = init-ok (b "CAPSULE_POINTS") refl in
      let (digest, fed) = update_points-ok start (e ∷ v ∷ []) in
      (digest_residue digest, rw (i, fed) (from_digest_lem _))

  pub hash_to_shared_secret-scalar :
      (precursor pubkey dh_point : CurvePoint)
      → (d : Residue) × (hash_to_shared_secret precursor pubkey dh_point ≡ ok (scalar d))
  unfolding hash_to_shared_secret
  hash_to_shared_secret-scalar precursor pubkey dh_point =
      let (start, i) = init-ok (b "SHARED_SECRET") refl in
      let (digest, fed) = update_points-ok start (precursor ∷ pubkey ∷ dh_point ∷ []) in
      (digest_residue digest, rw (i, fed) (from_digest_lem _))

  pub hash_to_cfrag_verification-scalar :
      (points : List CurvePoint)
      → (h : Residue) × (hash_to_cfrag_verification points ≡ ok (scalar h))
  unfolding hash_to_cfrag_verification
  hash_to_cfrag_verification-scalar points =
      let (start, i) = init-ok (b "CFRAG_VERIFICATION") refl in
      let (digest, fed) = update_points-ok start points in
      (digest_residue digest, rw (i, fed) (from_digest_lem _))

  key_part-ok : (pk : Option PublicKey) → (parts : List Bytes) × (key_part pk ≡ ok parts)
  unfolding key_part
  key_part-ok none = (bool_bytes false ∷ [], refl)
  key_part-ok (some pk) =
      let (bs, written) = to_bytes-pt pk.point_key.backend_point in
      (bool_bytes true ∷ bs ∷ [], rw written)

  pub kfrag_signature_message-ok :
      (kfrag_id : KeyFragId) (commitment precursor : CurvePoint)
      (maybe_delegating_pk maybe_receiving_pk : Option PublicKey)
      → (message : Bytes) × (kfrag_signature_message kfrag_id commitment precursor
            maybe_delegating_pk maybe_receiving_pk
          ≡ ok message)
  unfolding kfrag_signature_message
  kfrag_signature_message-ok kfrag_id commitment precursor maybe_delegating_pk maybe_receiving_pk =
      let (delegating_part, d) = key_part-ok maybe_delegating_pk in
      let (receiving_part, r) = key_part-ok maybe_receiving_pk in
      let (commitment_bytes, c) = to_bytes-pt commitment.backend_point in
      let (precursor_bytes, p) = to_bytes-pt precursor.backend_point in
      (
        flatten (
            (kfrag_id.id ∷ commitment_bytes ∷ precursor_bytes ∷ [])
            ++ delegating_part
            ++ receiving_part),
        rw (d, r, c, p),
      )
