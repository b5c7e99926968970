-- ===== src/Keys/RoundTrip.antt =====
-- Keys are written and read back, and the factory gives a key for every label.
use nucypher_kms_umbral.Prelude.{
  ◌+◌, ◌^◌, ◌≤◌, ◌<◌, ◌≡◌, ◌≢◌, refl, ◌⊎◌, inl, inr, true, none, some, ◌++◌, ok, err,
  overflow_error, length, length-append, ltb, Bool-cases, arith,
}
use nucypher_kms_umbral.Prelude.Bytes.{Bytes, b, to_bytes, be_digits}
use nucypher_kms_umbral.Prelude.Residue.{Residue, zero_r}
use nucypher_kms_umbral.Backend.Interface.{Backend}
use nucypher_kms_umbral.Backend.Laws.{BignumLaws, CurveLaws, EncodingLaws}
use nucypher_kms_umbral.Openssl.Secp256k1.{secp256k1, scalar_modulus}
use nucypher_kms_umbral.Hash.{Hash, init, update}
use nucypher_kms_umbral.CurveScalar.Defs.{scalar_serial}
use nucypher_kms_umbral.CurveScalar.Arithmetic.{from_digest_lem, digest_residue}
use nucypher_kms_umbral.CurveScalar.RoundTrip.{scalar-RoundTrips}
use nucypher_kms_umbral.CurvePoint.Defs.{point_serial}
use nucypher_kms_umbral.CurvePoint.Arithmetic.{smul}
use nucypher_kms_umbral.CurvePoint.RoundTrip.{point-RoundTrips}
use nucypher_kms_umbral.Serializable.RoundTrip.{RoundTrips}
use nucypher_kms_umbral.Signing.Accepted.{public_point_ne}
use nucypher_kms_umbral.Keys.Defs.{
  SecretKeyFactory, secret_key_serial, secret_key_from_exact_bytes, public_key_serial,
  secret_key_by_label, derived_key_size,
}
use nucypher_kms_umbral.Dem.Defs.{kdf}
use nucypher_kms_umbral.Keys.Pairs.{public_of, key_of, secret_key-scalar}

module _ ⦃lib : Backend⦄ ⦃bignum : BignumLaws⦄ ⦃curve : CurveLaws⦄ where
  secret_key-RoundTrips : (a : Residue) → RoundTrips secret_key_serial (key_of a)
  unfolding secret_key_serial secret_key_from_exact_bytes scalar_serial
  secret_key-RoundTrips a =
      let s = scalar-RoundTrips a in
      record {
        encoding = s.encoding;
        written = s.written;
        sized = s.sized;
        reread = rw s.reread (secret_key-scalar a);
      }

  module _ ⦃encoding : EncodingLaws⦄ where
    public_key-RoundTrips : (a : Residue) → a ≢ zero_r → RoundTrips public_key_serial (public_of a)
    unfolding public_key_serial point_serial
    public_key-RoundTrips a h =
        let p = point-RoundTrips (smul a curve.generator) (public_point_ne a h) in
        record {
          encoding = p.encoding;
          written = p.written;
          sized = p.sized;
          reread = rw p.reread refl;
        }

    -- Both keys of a pair whose scalar is not zero are written in their constant sizes and read
    -- back; from the secret key's bytes the public key is computed again.
    pub key_pair-RoundTrips :
        (a : Residue)
        → a ≢ zero_r
        → RoundTrips secret_key_serial (key_of a) × RoundTrips public_key_serial (public_of a)
    key_pair-RoundTrips a h = (secret_key-RoundTrips a, public_key-RoundTrips a h)

  abbrev tag_of : Bytes → Bytes
  tag_of label = b "KEY_DERIVATION/" ++ label

  key_for :
      (factory : SecretKeyFactory) (label : Bytes) (start : Hash)
      → init (some (tag_of label)) ≡ ok start
      → (a : Residue) × (secret_key_by_label factory label ≡ ok (key_of a))
  unfolding secret_key_by_label
  key_for factory label start e = (
    digest_residue
        (update start (kdf factory.key_seed derived_key_size none (some (tag_of label)))),
    rw (e, from_digest_lem, secret_key-scalar) refl,
  )

  tag-ok :
      (tag : Bytes)
      → ltb (length tag) (256 ^ 4) ≡ true
      → (start : Hash) × (init (some tag) ≡ ok start)
  unfolding init to_bytes
  tag-ok tag short =
      (update (record { hash = lib.hash_new }) (be_digits 4 (length tag) ++ tag), rw short refl)

  -- For every factory and label shorter than 2^32 less the 15 bytes of the tag,
  -- `secret_key_by_label` gives a key pair; a longer label raises an OverflowError.
  pub secret_key_by_label_lem :
      (factory : SecretKeyFactory) (label : Bytes)
      → ((15 + length label < 256 ^ 4)
          × ((a : Residue) × (secret_key_by_label factory label ≡ ok (key_of a))))
        ⊎ ((256 ^ 4 ≤ 15 + length label) × (secret_key_by_label factory label ≡ err overflow_error))
  unfolding secret_key_by_label init to_bytes
  secret_key_by_label_lem factory label =
      let size = length-append (b "KEY_DERIVATION/") label in
      elim (Bool-cases (ltb (length (b "KEY_DERIVATION/" ++ label)) (256 ^ 4))) [
        | inl short ↦ inl (
          ground (arith, size, short),
          (let (start, e) = tag-ok (tag_of label) short in key_for factory label start e),
        )
        | inr long ↦ inr (ground (arith, size, long), rw long refl)
      ]
