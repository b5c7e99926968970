-- ===== src/Openssl/Bignum.antt =====
-- The bignum functions of umbral/openssl.py.
use nucypher_kms_umbral.Prelude.{
  ℕ, ℤ, pos, negsuc, ◌==ℤ◌, Bool, ◌&&◌, ◌||◌, not, Option, none, some, Result, ok, false, leb,
  openssl_assert, value_error, assertion_error, raise_if, ◌>>=◌, ◌>>◌,
}
use nucypher_kms_umbral.Prelude.Bytes.{Bytes, rjust_zero}
use nucypher_kms_umbral.Backend.Interface.{Backend}
use nucypher_kms_umbral.Backend.Random.{Random, lift, ◌>>=◌ as ◌>>=ᵣ◌}

module _ ⦃lib : Backend⦄ where
  unfoldable pub bn_is_normalized : lib.Bignum → lib.Bignum → Bool
  bn_is_normalized check_bn modulus =
      let zero = lib.bn_of (pos 0) in
      let check_sign = lib.bn_cmp check_bn zero in
      let range_check = lib.bn_cmp check_bn modulus in
      (check_sign ==ℤ pos 0 || check_sign ==ℤ pos 1) && range_check ==ℤ negsuc 0

  -- `check_modulus and not bn_is_normalized(bn, check_modulus)`
  unfoldable pub is_refused : lib.Bignum → Option lib.Bignum → Bool
  unfolding bn_is_normalized
  is_refused bn none = false
  is_refused bn (some modulus) = not (bn_is_normalized bn modulus)

  unfoldable pub bn_from_int : ℤ → Option lib.Bignum → Result lib.Bignum
  unfolding is_refused
  bn_from_int py_int check_modulus = do
    conv_bn ← lib.int_to_bn py_int
    raise_if (is_refused conv_bn check_modulus)
        (value_error "The Python integer given is not under the provided modulus.")
    ok conv_bn

  -- `BN_mod` if a modulus is given.
  unfoldable pub apply_mod : lib.Bignum → Option lib.Bignum → Result lib.Bignum
  apply_mod bn none = ok bn
  apply_mod bn (some modulus) = openssl_assert (lib.bn_mod bn modulus)

  unfoldable pub bn_from_bytes : Bytes → Option lib.Bignum → Option lib.Bignum → Result lib.Bignum
  unfolding is_refused apply_mod
  bn_from_bytes bytes_seq check_modulus apply_modulus = do
    let bn = lib.bn_bin2bn bytes_seq
    raise_if (is_refused bn check_modulus)
        (value_error "The integer encoded with given bytes is not under the provided modulus.")
    apply_mod bn apply_modulus

  unfoldable pub bn_to_bytes : lib.Bignum → ℕ → Result Bytes
  bn_to_bytes bn size = do
    raise_if (not (leb (lib.bn_num_bytes bn) size)) assertion_error
    ok (rjust_zero (lib.bn_bn2bin bn) size)

  -- A random number in `[1, modulus)`.
  unfoldable pub bn_random_nonzero : lib.Bignum → Random lib.Bignum
  bn_random_nonzero modulus =
      let one = lib.bn_of (pos 1) in
      lift (openssl_assert (lib.bn_sub modulus one)) >>=ᵣ λ modulus_minus_1.
      (λ rng. openssl_assert (lib.bn_rand_range modulus_minus_1 rng)) >>=ᵣ λ new_rand_bn.
      lift (openssl_assert (lib.bn_add new_rand_bn one))

  unfoldable pub bn_to_int : lib.Bignum → ℤ
  bn_to_int bn = lib.bn_to_int bn

  -- The bytes that hold a number, `_bn_size`.
  unfoldable pub bn_size : lib.Bignum → ℕ
  bn_size bn = lib.bn_num_bytes bn

  -- -1 less than, 0 is equal to, 1 is greater than
  unfoldable pub bn_cmp : lib.Bignum → lib.Bignum → ℤ
  bn_cmp bn1 bn2 = lib.bn_cmp bn1 bn2

  unfoldable pub bn_one : lib.Bignum
  bn_one = lib.bn_of (pos 1)

  unfoldable pub bn_is_zero : lib.Bignum → Result Bool
  unfolding bn_from_int bn_cmp
  bn_is_zero bn = do zero ← bn_from_int (pos 0) none; ok (bn_cmp bn zero ==ℤ pos 0)

  unfoldable pub bn_invert : lib.Bignum → lib.Bignum → Result lib.Bignum
  bn_invert bn modulus = openssl_assert (lib.bn_mod_inverse bn modulus)

  unfoldable pub bn_sub : lib.Bignum → lib.Bignum → lib.Bignum → Result lib.Bignum
  bn_sub bn1 bn2 modulus = openssl_assert (lib.bn_mod_sub bn1 bn2 modulus)

  unfoldable pub bn_add : lib.Bignum → lib.Bignum → lib.Bignum → Result lib.Bignum
  bn_add bn1 bn2 modulus = openssl_assert (lib.bn_mod_add bn1 bn2 modulus)

  unfoldable pub bn_mul : lib.Bignum → lib.Bignum → lib.Bignum → Result lib.Bignum
  bn_mul bn1 bn2 modulus = openssl_assert (lib.bn_mod_mul bn1 bn2 modulus)
