-- ===== src/Keys/Obtained.antt =====
-- The invariant of a secret key: its public key is its scalar times the generator.
use nucypher_kms_umbral.Prelude.{
  ◌==◌, ◌≡◌, refl, inl, inr, Bool-cases, ok, err, Error, value_error, ◌⊎◌, length, ltb,
}
use nucypher_kms_umbral.Prelude.Bytes.{Bytes, be_value}
use nucypher_kms_umbral.Prelude.Residue.{Residue, residue}
use nucypher_kms_umbral.Backend.Interface.{Backend}
use nucypher_kms_umbral.Backend.Laws.{BignumLaws, CurveLaws, RandomLaws}
use nucypher_kms_umbral.Openssl.Secp256k1.{secp256k1, scalar_modulus}
use nucypher_kms_umbral.Serializable.Defs.{from_bytes}
use nucypher_kms_umbral.CurveScalar.RoundTrip.{from_exact_bytes_lem}
use nucypher_kms_umbral.Keys.Defs.{
  SecretKey, SecretKeyFactory, random_secret_key, secret_key_serial, secret_key_from_exact_bytes,
  secret_key_by_label,
}
use nucypher_kms_umbral.Keys.Pairs.{key_of, random_secret_key_lem, secret_key-scalar}
use nucypher_kms_umbral.Keys.RoundTrip.{secret_key_by_label_lem}

module _ ⦃lib : Backend⦄ ⦃bignum : BignumLaws⦄ ⦃curve : CurveLaws⦄ where
  -- The ways in which the package makes a secret key.
  pub data Obtained : SecretKey → Type 0 where
    drawn :
        {sk : SecretKey} (rng rng' : lib.Rng) → random_secret_key rng ≡ ok (sk, rng') → Obtained sk
    read : {sk : SecretKey} (bs : Bytes) → from_bytes secret_key_serial bs ≡ ok sk → Obtained sk
    labelled :
        {sk : SecretKey} (factory : SecretKeyFactory) (label : Bytes)
        → secret_key_by_label factory label ≡ ok sk
        → Obtained sk

  -- The scalar is below the order, and the public key is that many times the generator.
  abbrev pub IsKeyPair : SecretKey → Type 0
  IsKeyPair sk = (a : Residue) × (sk ≡ key_of a)

  read_lem :
      (bs : Bytes)
      → ((a : Residue) × (from_bytes secret_key_serial bs ≡ ok (key_of a)))
        ⊎ ((e : Error) × (from_bytes secret_key_serial bs ≡ err e))
  unfolding from_bytes secret_key_serial secret_key_from_exact_bytes
  read_lem bs = elim (Bool-cases (length bs == secret_key_serial.serialized_size)) [
    | inr size ↦ inr (value_error "Wrong number of bytes", rw size refl)
    | inl size ↦ elim (Bool-cases (ltb (be_value bs) curve.order)) [
      | inr large ↦ inr (
        value_error "The integer encoded with given bytes is not under the provided modulus.",
        rw (size, from_exact_bytes_lem bs, large) refl,
      )
      | inl small ↦
          inl (
            residue (be_value bs),
            rw (size, from_exact_bytes_lem bs, small, secret_key-scalar) refl,
          )
    ]
  ]

  -- However a secret key was made, by drawing it, by reading its bytes or from a label, its scalar
  -- is below the order and its public key is that many times the generator.
  pub Obtained-IsKeyPair : ⦃random : RandomLaws⦄ (sk : SecretKey) → Obtained sk → IsKeyPair sk
  Obtained-IsKeyPair sk (drawn rng rng' e) =
      let (a, rng'', e', _) = random_secret_key_lem rng in (a, cc (e, e'))
  Obtained-IsKeyPair sk (read bs e) = elim (read_lem bs) [
    | inl (a, e') ↦ (a, cc (e, e'))
    | inr (raised, e') ↦ absurd (cc (e, e'))
  ]
  Obtained-IsKeyPair sk (labelled factory label e) = elim (secret_key_by_label_lem factory label) [
    | inl (short, (a, e')) ↦ (a, cc (e, e'))
    | inr (long, e') ↦ absurd (cc (e, e'))
  ]
