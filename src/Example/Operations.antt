-- ===== src/Example/Operations.antt =====
-- The parts of vectors/generate_test_vectors.py on scalars, points and hashes. Of a vector file
-- only the data are modelled, not the names and descriptions around them, nor the writing.
use nucypher_kms_umbral.Prelude.{
  ℕ, zero, suc, ℤ, pos, negsuc, Bool, true, false, none, List, [], ◌∷◌, ◌++◌, ◌≤◌, ◌≡◌, refl, arith,
  map, ◌%◌, ◌/◌, Result, ok, some, traverse, ltb, ◌>>=◌,
}
use nucypher_kms_umbral.Prelude.Bytes.{Bytes, b, hex, hex_digit}
use nucypher_kms_umbral.Backend.Interface.{Backend}
use nucypher_kms_umbral.Openssl.Curve.{Curve}
use nucypher_kms_umbral.Hash
use nucypher_kms_umbral.Hash.{Hash}
use nucypher_kms_umbral.CurveScalar.Defs as CurveScalar
use nucypher_kms_umbral.CurveScalar.Defs.{CurveScalar}
use nucypher_kms_umbral.CurvePoint.Defs as CurvePoint
use nucypher_kms_umbral.CurvePoint.Defs.{CurvePoint}
use mathlib.Core.Path.{subst}
use mathlib.Core.List.{flatten}
use nucypher_kms_umbral.Capsule.Defs.{Capsule}
use nucypher_kms_umbral.Dem.Defs.{kdf}
use nucypher_kms_umbral.Hashing.ToPoint.{unsafe_hash_to_point}

-- The hexadecimal digits of a number, at least one. Every round divides by 16, so as many rounds
-- as the number are enough (`hex_digits-enough`).
hex_digits : ℕ → ℕ → Bytes
unfolding hex_digit
hex_digits zero num = hex_digit (num % 16) ∷ []
hex_digits (suc rounds) num = elim (ltb num 16) [
  | true ↦ hex_digit num ∷ []
  | false ↦ hex_digits rounds (num / 16) ++ (hex_digit (num % 16) ∷ [])
]

-- One more round changes nothing once there are as many as the number.
hex_digits-enough :
    (rounds num : ℕ) → num ≤ rounds → hex_digits (suc rounds) num ≡ hex_digits rounds num
unfolding hex_digits
hex_digits-enough zero num h = subst (λ k. hex_digits 1 k ≡ hex_digits 0 k) (small h) refl
  where
    small : num ≤ 0 → 0 ≡ num
    small h = omega (arith, h)
hex_digits-enough (suc rounds) num h = go (hex_digits-enough rounds (num / 16)) (ltb num 16) refl
  where
    go :
        (num / 16 ≤ rounds → hex_digits (suc rounds) (num / 16) ≡ hex_digits rounds (num / 16))
        → (t : Bool) → ltb num 16 ≡ t
        → hex_digits (suc (suc rounds)) num ≡ hex_digits (suc rounds) num
    go rest true e = rw (e, hex_digits) refl
    go rest false e = rw (e, rest (less e), hex_digits) refl
      where
        less : ltb num 16 ≡ false → num / 16 ≤ rounds
        less e = ground (arith, h)

-- `hex(data)[2:]`, which of the prefix "-0x" of a negative number leaves the last character.
unfoldable pub hexlify_int : ℤ → Bytes
unfolding hex_digits
hexlify_int (pos num) = hex_digits num num
hexlify_int (negsuc num) = b "x" ++ hex_digits (suc num) (suc num)

module _ ⦃lib : Backend⦄ ⦃CURVE : Curve⦄ where
  -- What is hashed: bytes, or an object that is written first.
  pub data Input : Type 0 where
    of_bytes : Bytes → Input
    of_point : CurvePoint → Input
    of_scalar : CurveScalar → Input

  unfoldable pub hexlify_scalar : CurveScalar → Result Bytes
  unfolding CurveScalar.to_bytes hex
  hexlify_scalar data' = do bs ← CurveScalar.to_bytes data'; ok (hex bs)

  unfoldable pub hexlify_point : CurvePoint → Result Bytes
  unfolding CurvePoint.to_bytes hex
  hexlify_point data' = do bs ← CurvePoint.to_bytes data'; ok (hex bs)

  -- The results of the four operations, computed first and then written.
  unfoldable pub scalar_operations : CurveScalar → CurveScalar → Result (List Bytes)
  unfolding CurveScalar.add CurveScalar.sub CurveScalar.mul CurveScalar.invert traverse
      hexlify_scalar
  scalar_operations bn1 bn2 = do
    addition ← CurveScalar.add bn1 bn2
    subtraction ← CurveScalar.sub bn1 bn2
    multiplication ← CurveScalar.mul bn1 bn2
    inverse ← CurveScalar.invert bn1
    traverse hexlify_scalar (addition ∷ subtraction ∷ multiplication ∷ inverse ∷ [])

  unfoldable pub digest_inputs : Capsule → CurveScalar → List CurvePoint → List (List Input)
  digest_inputs capsule z points =
      (of_bytes [] ∷ [])
      ∷ (of_bytes (b "abc") ∷ [])
      ∷ (of_point capsule.point_e ∷ [])
      ∷ (of_scalar z ∷ [])
      ∷ (of_point capsule.point_e ∷ of_scalar z ∷ [])
      ∷ map of_point points
      ∷ []

  unfoldable pub input_bytes : Input → Result Bytes
  unfolding CurvePoint.to_bytes CurveScalar.to_bytes
  input_bytes (of_bytes bs) = ok bs
  input_bytes (of_point point) = CurvePoint.to_bytes point
  input_bytes (of_scalar scalar) = CurveScalar.to_bytes scalar

  -- `data.__class__.__name__`
  unfoldable pub class_name : Input → Bytes
  class_name (of_bytes bs) = b "bytes"
  class_name (of_point point) = b "CurvePoint"
  class_name (of_scalar scalar) = b "CurveScalar"

  unfoldable pub json_input : Input → Result (Bytes × Bytes)
  unfolding class_name input_bytes hex
  json_input input = do bs ← input_bytes input; ok (class_name input, hex bs)

  unfoldable pub update_all : Hash → List Input → Result Hash
  unfolding input_bytes Hash.update
  update_all digest [] = ok digest
  update_all digest (input ∷ inputs) = do
    bs ← input_bytes input
    update_all (Hash.update digest bs) inputs

  -- One round of the loop over `inputs`: what is hashed, and the scalar of the digest.
  unfoldable pub digest_vector : List Input → Result (List (Bytes × Bytes) × Bytes)
  unfolding Hash.init update_all CurveScalar.from_digest traverse json_input hexlify_scalar
  digest_vector input_to_hash = do
    digest ← Hash.init (some (b "some_dst"))
    digest' ← update_all digest input_to_hash
    scalar ← CurveScalar.from_digest digest'
    inputs ← traverse json_input input_to_hash
    output ← hexlify_scalar scalar
    ok (inputs, output)

  unfoldable pub digest_vectors : List (List Input) → Result (List (List (Bytes × Bytes) × Bytes))
  unfolding traverse digest_vector
  digest_vectors inputs = traverse digest_vector inputs

  -- The results of the operations on points, computed first and then written.
  unfoldable pub point_operations : CurvePoint → CurvePoint → CurveScalar → Result (List Bytes)
  unfolding CurvePoint.add CurvePoint.sub CurvePoint.mul CurvePoint.neg CurvePoint.to_affine
      CurvePoint.to_bytes kdf traverse hexlify_point hexlify_int hex
  point_operations point1 point2 bn1 = do
    addition ← CurvePoint.add point1 point2
    subtraction ← CurvePoint.sub point1 point2
    multiplication ← CurvePoint.mul point1 bn1
    inversion ← CurvePoint.neg point1
    x_coords ← CurvePoint.to_affine point1
    y_coords ← CurvePoint.to_affine point1
    bs ← CurvePoint.to_bytes point1
    written ← traverse hexlify_point (addition ∷ subtraction ∷ multiplication ∷ inversion ∷ [])
    ok (
        written
        ++ (hexlify_int x_coords.0
            ∷ hexlify_int y_coords.1
            ∷ hex (kdf bs lib.xchacha_key_size none none)
            ∷ []))

  abbrev pub hash_inputs : List Bytes
  hash_inputs = [] ∷ b "abc" ∷ b "NuCypher" ∷ b "Nucypher" ∷ []

  -- One round of the inner loop: the data, the tag and the point they are hashed to.
  unfoldable pub hash_vector : Bytes → Bytes → Result (Bytes × Bytes × Bytes)
  unfolding unsafe_hash_to_point hex hexlify_point
  hash_vector input dst = do
    point ← unsafe_hash_to_point dst input
    written ← hexlify_point point
    ok (hex input, hex dst, written)

  unfoldable pub hash_vectors : List Bytes → Result (List (Bytes × Bytes × Bytes))
  unfolding traverse hash_vector
  hash_vectors inputs = do
    rounds ← traverse (λ input. traverse (hash_vector input) inputs) inputs
    ok (flatten rounds)
