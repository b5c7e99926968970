-- ===== src/Hashing/Defs.antt =====
-- The hash functions of umbral/hashing.py.
use nucypher_kms_umbral.Prelude.{
  true, false, Option, none, some, List, [], ◌∷◌, ◌++◌, Result, ok, ◌>>=◌,
}
use nucypher_kms_umbral.Prelude.Bytes.{Bytes, b}
use nucypher_kms_umbral.Backend.Interface.{Backend}
use nucypher_kms_umbral.Openssl.Curve.{Curve}
use nucypher_kms_umbral.CurveScalar.Defs as CurveScalar
use nucypher_kms_umbral.CurveScalar.Defs.{CurveScalar}
use nucypher_kms_umbral.CurvePoint.Defs as CurvePoint
use nucypher_kms_umbral.CurvePoint.Defs.{CurvePoint}
use nucypher_kms_umbral.Serializable.Defs.{bool_bytes}
use nucypher_kms_umbral.Keys.Defs.{PublicKey, public_key_bytes}
use nucypher_kms_umbral.KeyFrag.Id.{KeyFragId}
use nucypher_kms_umbral.Hash
use nucypher_kms_umbral.Hash.{Hash}
use mathlib.Core.List.{flatten}

module _ ⦃lib : Backend⦄ ⦃CURVE : Curve⦄ where
  -- `digest.update(point)` for each point of a list.
  unfoldable pub update_points : Hash → List CurvePoint → Result Hash
  unfolding CurvePoint.to_bytes Hash.update
  update_points digest [] = ok digest
  update_points digest (point ∷ points) = do
    bs ← CurvePoint.to_bytes point
    update_points (Hash.update digest bs) points

  unfoldable pub hash_to_polynomial_arg :
      CurvePoint → CurvePoint → CurvePoint → KeyFragId → Result CurveScalar
  unfolding update_points Hash.init Hash.update CurveScalar.from_digest
  hash_to_polynomial_arg precursor pubkey dh_point kfrag_id = do
    digest ← Hash.init (some (b "POLYNOMIAL_ARG"))
    digest' ← update_points digest (precursor ∷ pubkey ∷ dh_point ∷ [])
    CurveScalar.from_digest (Hash.update digest' kfrag_id.id)

  unfoldable pub hash_capsule_points : CurvePoint → CurvePoint → Result CurveScalar
  unfolding update_points Hash.init CurveScalar.from_digest
  hash_capsule_points e v = do
    digest ← Hash.init (some (b "CAPSULE_POINTS"))
    digest' ← update_points digest (e ∷ v ∷ [])
    CurveScalar.from_digest digest'

  unfoldable pub hash_to_shared_secret : CurvePoint → CurvePoint → CurvePoint → Result CurveScalar
  unfolding update_points Hash.init CurveScalar.from_digest
  hash_to_shared_secret precursor pubkey dh_point = do
    digest ← Hash.init (some (b "SHARED_SECRET"))
    digest' ← update_points digest (precursor ∷ pubkey ∷ dh_point ∷ [])
    CurveScalar.from_digest digest'

  unfoldable pub hash_to_cfrag_verification : List CurvePoint → Result CurveScalar
  unfolding update_points Hash.init CurveScalar.from_digest
  hash_to_cfrag_verification points = do
    digest ← Hash.init (some (b "CFRAG_VERIFICATION"))
    digest' ← update_points digest points
    CurveScalar.from_digest digest'

  -- `[bool_bytes(True), bytes(pk)] if pk else [bool_bytes(False)]`
  unfoldable pub key_part : Option PublicKey → Result (List Bytes)
  unfolding bool_bytes public_key_bytes
  key_part none = ok (bool_bytes false ∷ [])
  key_part (some pk) = do bs ← public_key_bytes pk; ok (bool_bytes true ∷ bs ∷ [])

  unfoldable pub kfrag_signature_message :
      KeyFragId → CurvePoint → CurvePoint → Option PublicKey → Option PublicKey → Result Bytes
  unfolding key_part CurvePoint.to_bytes
  kfrag_signature_message kfrag_id commitment precursor maybe_delegating_pk maybe_receiving_pk = do
    delegating_part ← key_part maybe_delegating_pk
    receiving_part ← key_part maybe_receiving_pk
    commitment_bytes ← CurvePoint.to_bytes commitment
    precursor_bytes ← CurvePoint.to_bytes precursor
    let components = kfrag_id.id ∷ commitment_bytes ∷ precursor_bytes ∷ []
    ok (flatten (components ++ delegating_part ++ receiving_part))
