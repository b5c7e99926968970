-- ===== src/Tests/Protocol.antt =====
-- Theorems on capsules, key fragments and the protocol at concrete inputs.
use nucypher_kms_umbral.Prelude.{
  refl, zero, suc, ℕ, ◌<◌, ◌≤◌, ◌/◌, ◌≡◌, ◌≢◌, sym, ◌∙◌, ap, true, [], ◌∷◌, ok, map, arith,
}
use nucypher_kms_umbral.Prelude.Bytes.{be_digits, Bytes}
use nucypher_kms_umbral.Prelude.Residue.{Residue, residue, zero_r, ◌⊗◌}
use nucypher_kms_umbral.Openssl.Secp256k1.{secp256k1, scalar_modulus}
use nucypher_kms_umbral.CurveScalar.Arithmetic.{scalar}
use nucypher_kms_umbral.CurvePoint.Defs.{CurvePoint}
use nucypher_kms_umbral.Keys.Pairs.{public_of, key_of}
use nucypher_kms_umbral.Signing.Defs as Signing
use nucypher_kms_umbral.Signing.Defs.{sign}
use nucypher_kms_umbral.Signing.Accepted.{verify-sign}
use nucypher_kms_umbral.Scheme.Lagrange.{poly_value}
use nucypher_kms_umbral.KeyFrag.Generate.{poly_eval}
use nucypher_kms_umbral.KeyFrag.Polynomial.{poly_eval-scalar}
use nucypher_kms_umbral.Capsule.Defs.{Capsule, from_public_key, verify, open_original}
use nucypher_kms_umbral.Capsule.Original.{open_original-from_public_key}
use nucypher_kms_umbral.Scheme.Lagrange.{weight}
use nucypher_kms_umbral.Capsule.Open.{lambda_coeff}
use nucypher_kms_umbral.Capsule.Combine.{difference_inverse, lambda_coeff-scalar}
use native.Mathlib.Nat.{mod-eq_of_lt}
use nucypher_kms_umbral.Pre.Defs.{encrypt, decrypt_original}
use nucypher_kms_umbral.Pre.Original.{decrypt_original-encrypt}
use nucypher_kms_umbral.Backend.Interface.{decoded, reason}
use nucypher_kms_umbral.Toy.Group.{of_octets}
use nucypher_kms_umbral.Hashing.ToPoint.{unsafe_hash_to_point}
use nucypher_kms_umbral.Hashing.FirstPoint.{octets, unsafe_hash_to_point-first}
use nucypher_kms_umbral.Toy.Code.{toy, checksum}
use nucypher_kms_umbral.Toy.Laws.{
  toy_numbers, toy_random, toy_curve, toy_encoding, toy_ecdsa, toy_aead,
}

poly_eval-scalar_example :
    poly_eval (map scalar (residue 2 ∷ residue 5 ∷ [])) (scalar (residue 3))
    ≡ ok (scalar (poly_value (residue 2 ∷ residue 5 ∷ []) (residue 3)))
poly_eval-scalar_example = poly_eval-scalar (residue 2 ∷ residue 5 ∷ []) (residue 3) (λ e. cc)

open_original-from_public_key_example :
    (capsule : Capsule) × (key : CurvePoint) × (rng' : toy.Rng) × (from_public_key
        (public_of (residue 3))
        5
      ≡ ok ((capsule, key), rng'))
    × (verify capsule ≡ ok true)
    × (open_original capsule (key_of (residue 3)) ≡ ok key)
open_original-from_public_key_example = open_original-from_public_key (residue 3) 5

decrypt_original-encrypt_example :
    (capsule : Capsule) × (ciphertext : Bytes) × (rng' : toy.Rng) × (encrypt
        (public_of (residue 3))
        (7 ∷ 8 ∷ [])
        5
      ≡ ok ((capsule, ciphertext), rng'))
    × (decrypt_original (key_of (residue 3)) capsule ciphertext ≡ ok (7 ∷ 8 ∷ []))
decrypt_original-encrypt_example = decrypt_original-encrypt (residue 3) (7 ∷ 8 ∷ []) 5

differ : (x y : ℕ) → x < 7 → y < 7 → x ≢ y → residue x ≢ residue y
unfolding residue
differ x y hx hy ne e = ne (sym (mod-eq_of_lt hx) ∙ ap (λ (t : Residue). t.0) e ∙ mod-eq_of_lt hy)

lambda_coeff-scalar_example :
    lambda_coeff (map scalar (residue 2 ∷ residue 5 ∷ residue 3 ∷ [])) 1
    ≡ ok (
        scalar (
          weight difference_inverse (residue 5) (residue 2 ∷ [])
          ⊗ weight difference_inverse (residue 5) (residue 3 ∷ [])))
lambda_coeff-scalar_example =
    lambda_coeff-scalar (residue 2 ∷ []) (residue 3 ∷ []) (residue 5)
      (differ 2 5 (omega arith) (omega arith) (omega arith), tt)
      (differ 3 5 (omega arith) (omega arith) (omega arith), tt)

three_ne : residue 3 ≢ zero_r
unfolding residue zero_r
three_ne e = omega (arith, ap (λ (t : Residue). t.0) e)

verify-sign_example :
    (r : Residue) × (s : Residue) × (rng' : toy.Rng) × (sign
        (record { secret_key = key_of (residue 3) })
        (1 ∷ 2 ∷ [])
        4
      ≡ ok (record { r = scalar r; s = scalar s }, rng'))
    × (Signing.verify (record { r = scalar r; s = scalar s }) (public_of (residue 3)) (1 ∷ 2 ∷ [])
        ≡ ok true)
    × (s.0 ≤ 7 / 2)
verify-sign_example = verify-sign (residue 3) (1 ∷ 2 ∷ []) 4 three_ne

-- The first candidate of these bytes is no point, and the second one is.
first_candidate : octets (1 ∷ []) (4 ∷ []) 0 ≡ reason 110
unfolding of_octets checksum be_digits
first_candidate = refl

second_candidate : octets (1 ∷ []) (4 ∷ []) 1 ≡ decoded toy_curve.identity
unfolding of_octets checksum be_digits residue zero_r
second_candidate = refl

refused : (j : ℕ) → j < 1 → octets (1 ∷ []) (4 ∷ []) j ≡ reason 110
refused zero h = first_candidate
refused (suc j) h = absurd (omega (arith, h))

unsafe_hash_to_point-first_example :
    unsafe_hash_to_point (1 ∷ []) (4 ∷ []) ≡ ok (record { backend_point = toy_curve.identity })
unsafe_hash_to_point-first_example =
    unsafe_hash_to_point-first (λ digest. omega arith) (1 ∷ []) (4 ∷ []) 1 toy_curve.identity
      (omega arith) (omega arith) (omega arith) refused second_candidate
