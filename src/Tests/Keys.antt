-- ===== src/Tests/Keys.antt =====
-- Keys, and the message of a key fragment, at concrete inputs.
use nucypher_kms_umbral.Prelude.{
  ◌+◌, ◌^◌, ◌≤◌, ◌<◌, ◌≡◌, ◌≢◌, refl, ap, ◌⊎◌, Option, some, none, [], ◌∷◌, ok, err, overflow_error,
  length, replicate, arith,
}
use nucypher_kms_umbral.Prelude.Bytes.{Bytes}
use nucypher_kms_umbral.Prelude.Residue.{Residue, residue, zero_r}
use nucypher_kms_umbral.Openssl.Secp256k1.{secp256k1, scalar_modulus}
use nucypher_kms_umbral.CurvePoint.Arithmetic.{pt, smul}
use nucypher_kms_umbral.Serializable.RoundTrip.{RoundTrips}
use nucypher_kms_umbral.Signing.Accepted.{public_point_ne}
use nucypher_kms_umbral.Keys.Defs.{
  PublicKey, SecretKeyFactory, secret_key_serial, public_key_serial, secret_key_by_label,
  random_secret_key,
}
use nucypher_kms_umbral.Keys.Pairs.{public_of, key_of}
use nucypher_kms_umbral.Keys.RoundTrip.{key_pair-RoundTrips, secret_key_by_label_lem}
use nucypher_kms_umbral.KeyFrag.Id.{KeyFragId}
use nucypher_kms_umbral.Hashing.Message.{Regular, kfrag_signature_message-injective}
use nucypher_kms_umbral.Keys.Obtained.{drawn, IsKeyPair, Obtained-IsKeyPair}
use nucypher_kms_umbral.Toy.Group.{multiple}
use nucypher_kms_umbral.Toy.Code.{toy}
use nucypher_kms_umbral.Toy.Laws.{
  toy_numbers, toy_random, toy_curve, toy_encoding, toy_ecdsa, toy_aead,
}

three_ne : residue 3 ≢ zero_r
unfolding residue zero_r
three_ne e = omega (arith, ap (λ (t : Residue). t.0) e)

key_pair-RoundTrips_example :
    RoundTrips secret_key_serial (key_of (residue 3))
    × RoundTrips public_key_serial (public_of (residue 3))
key_pair-RoundTrips_example = key_pair-RoundTrips (residue 3) three_ne

abbrev label : Bytes
label = 7 ∷ 8 ∷ []

abbrev factory : SecretKeyFactory
factory = record { key_seed = replicate 64 1 }

secret_key_by_label_lem_example :
    ((15 + length label < 256 ^ 4)
      × ((a : Residue) × (secret_key_by_label factory label ≡ ok (key_of a))))
    ⊎ ((256 ^ 4 ≤ 15 + length label) × (secret_key_by_label factory label ≡ err overflow_error))
secret_key_by_label_lem_example = secret_key_by_label_lem factory label

abbrev kfrag_id : KeyFragId
kfrag_id = record { id = replicate 32 6 }

abbrev point : toy.Point
point = smul (residue 3) toy_curve.generator

abbrev no_key : Option PublicKey
no_key = none

regular : Regular kfrag_id (pt point) (pt point) (some (public_of (residue 3))) none
regular = (
  refl,
  public_point_ne (residue 3) three_ne,
  public_point_ne (residue 3) three_ne,
  public_point_ne (residue 3) three_ne,
  tt,
)

kfrag_signature_message-injective_example :
    (kfrag_id ≡ kfrag_id)
    × (pt point ≡ pt point)
    × (pt point ≡ pt point)
    × (some (public_of (residue 3)) ≡ some (public_of (residue 3)))
    × (no_key ≡ no_key)
kfrag_signature_message-injective_example =
    kfrag_signature_message-injective kfrag_id kfrag_id (pt point) (pt point) (pt point) (pt point)
      (some (public_of (residue 3))) none (some (public_of (residue 3))) none regular regular refl

drawn_key : random_secret_key 20 ≡ ok (key_of (residue 3), 21)
unfolding random_secret_key residue smul multiple
drawn_key = refl

Obtained-IsKeyPair_example : IsKeyPair (key_of (residue 3))
Obtained-IsKeyPair_example = Obtained-IsKeyPair (key_of (residue 3)) (drawn 20 21 drawn_key)
