-- ===== src/Tests/Primitives.antt =====
-- Theorems on scalars, points, keys, serialization and the DEM at concrete inputs.
use nucypher_kms_umbral.Prelude.{
  ℕ, overflow_error, negsuc, length, pos, ◌+◌, ◌≤◌, ◌⊎◌, if◌then◌else◌, ltb, String, ◌≡◌, ◌≢◌, Bool,
  true, false, List, [], ◌∷◌, ◌++◌, map, ok, err, none, value_error, not_implemented,
  internal_error,
}
use nucypher_kms_umbral.Prelude.Bytes.{◌==b◌, Bytes, b, be_value}
use nucypher_kms_umbral.Prelude.Residue.{Residue, residue, zero_r, one_r, ◌⊗◌, ◌⊕◌}
use nucypher_kms_umbral.Openssl.Curve.{casefold, from_name}
use nucypher_kms_umbral.Openssl.Secp256k1.{secp256k1, scalar_modulus, from_name_lem}
use nucypher_kms_umbral.Serializable.Defs.{Component, split, bool_serial}
use nucypher_kms_umbral.Serializable.RoundTrip.{
  RoundTrips, joined, AllRoundTrip, split-joined, bool-RoundTrips,
}
use nucypher_kms_umbral.CurveScalar.Defs.{scalar_serial, from_exact_bytes, random_nonzero}
use nucypher_kms_umbral.CurveScalar.Arithmetic.{scalar, minus, random_nonzero_lem}
use nucypher_kms_umbral.CurveScalar.RoundTrip.{scalar-RoundTrips, from_exact_bytes_lem}
use nucypher_kms_umbral.Dem.Defs.{init, encrypt, decrypt}
use nucypher_kms_umbral.Dem.RoundTrip.{decrypt_total, decrypt-encrypt}
use nucypher_kms_umbral.CurveScalar.Operand.{an_int, mul_operand, add_operand, sub_operand}
use nucypher_kms_umbral.CurveScalar.Range.{AllRaise, operand_lem}
use nucypher_kms_umbral.Example.Operations.{scalar_operations}
use nucypher_kms_umbral.Example.Ring.{written, scalar_operations_lem}
use nucypher_kms_umbral.Toy.Code.{toy}
use nucypher_kms_umbral.Toy.Laws.{toy_numbers, toy_random, toy_curve, toy_encoding, toy_aead}

from_name_lem_example :
    from_name (b "SECP256k1")
    ≡ (if casefold (b "SECP256k1") ==b b "secp256k1" then ok secp256k1 else err not_implemented)
from_name_lem_example = from_name_lem (b "SECP256k1")

-- The long s and the sign of the kelvin fold to letters.
folded_name : from_name (383 ∷ (b "ECP256" ++ (8490 ∷ 49 ∷ []))) ≡ ok secp256k1
unfolding casefold
folded_name = from_name_lem (383 ∷ (b "ECP256" ++ (8490 ∷ 49 ∷ [])))

abbrev flag_types : List Component
flag_types =
    record { Carrier = Bool; serial = bool_serial }
    ∷ record { Carrier = Bool; serial = bool_serial }
    ∷ []

abbrev flags_RoundTrip : AllRoundTrip flag_types (true, (false, tt))
flags_RoundTrip = (bool-RoundTrips true, (bool-RoundTrips false, tt))

split-joined_example :
    split flag_types (joined flag_types (true, (false, tt)) flags_RoundTrip)
    ≡ ok (true, (false, tt))
split-joined_example = split-joined flag_types (true, (false, tt)) flags_RoundTrip

scalar_operations_lem_example :
    ((d i : Residue) × (d ⊕ residue 3 ≡ residue 4)
      × (i ⊗ residue 4 ≡ one_r)
      × (scalar_operations (scalar (residue 4)) (scalar (residue 3))
          ≡ ok (map written ((residue 4 ⊕ residue 3) ∷ d ∷ (residue 4 ⊗ residue 3) ∷ i ∷ []))))
    ⊎ ((residue 4 ≡ zero_r)
        × (scalar_operations (scalar (residue 4)) (scalar (residue 3)) ≡ err internal_error))
scalar_operations_lem_example = scalar_operations_lem (residue 4) (residue 3)

random_nonzero_lem_example :
    (a : Residue) × (rng' : toy.Rng) × (random_nonzero 13 ≡ ok (scalar a, rng')) × (a ≢ zero_r)
random_nonzero_lem_example = random_nonzero_lem 13

from_exact_bytes_lem_example : from_exact_bytes (0 ∷ 9 ∷ []) ≡ (
    if ltb (be_value (0 ∷ 9 ∷ [])) 7
    then ok (scalar (residue (be_value (0 ∷ 9 ∷ []))))
    else err
        (value_error "The integer encoded with given bytes is not under the provided modulus."))
from_exact_bytes_lem_example = from_exact_bytes_lem (0 ∷ 9 ∷ [])

scalar-RoundTrips_example : RoundTrips scalar_serial (scalar (residue 5))
scalar-RoundTrips_example = scalar-RoundTrips (residue 5)

abbrev material : Bytes
material = 1 ∷ 2 ∷ []

abbrev sealed : Bytes
sealed = 8 ∷ 9 ∷ 7 ∷ []

decrypt_total_example :
    ((toy.xchacha_nonce_size + toy.xchacha_tag_size ≤ length sealed)
      × ((plaintext : Bytes) × (decrypt (init material none none) sealed [] ≡ ok plaintext)))
    ⊎ ((message : String) × (decrypt (init material none none) sealed []
          ≡ err (value_error message)))
decrypt_total_example = decrypt_total (init material none none) sealed []

decrypt-encrypt_example :
    (sealed : Bytes) × (rng' : toy.Rng) × (encrypt (init material none none) (7 ∷ 8 ∷ []) [] 3
      ≡ ok (sealed, rng'))
    × (decrypt (init material none none) sealed [] ≡ ok (7 ∷ 8 ∷ []))
decrypt-encrypt_example = decrypt-encrypt material (7 ∷ 8 ∷ []) [] 3

operand_lem_example :
    ((r : Residue) × (pos 9 ≡ pos r.0)
      × (mul_operand (scalar (residue 4)) (an_int (pos 9)) ≡ ok (scalar (residue 4 ⊗ r)))
      × (add_operand (scalar (residue 4)) (an_int (pos 9)) ≡ ok (scalar (residue 4 ⊕ r)))
      × (sub_operand (scalar (residue 4)) (an_int (pos 9)) ≡ ok (scalar (minus (residue 4) r))))
    ⊎ ((k : ℕ) × (pos 9 ≡ pos k)
        × (7 ≤ k)
        × AllRaise
            (scalar (residue 4))
            (pos 9)
            (value_error "The Python integer given is not under the provided modulus."))
    ⊎ ((k : ℕ) × (pos 9 ≡ negsuc k) × AllRaise (scalar (residue 4)) (pos 9) overflow_error)
operand_lem_example = operand_lem (residue 4) (pos 9)
