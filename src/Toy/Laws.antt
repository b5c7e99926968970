-- ===== src/Toy/Laws.antt =====
-- The small instance satisfies the laws.
use nucypher_kms_umbral.Prelude.{
  ℕ, zero, suc, ◌-◌, ◌*◌, ◌/◌, ◌%◌, ◌<◌, ◌≡◌, refl, sym, ap, ◌∙◌, List, [], ◌∷◌, ◌++◌, some, pos,
  length, take, replicate, take-append, length-append, length-replicate, arith, ℤ, negsuc, ◌==ℤ◌,
}
use nucypher_kms_umbral.Prelude.Bytes.{IsBytes, length-be_digits}
use nucypher_kms_umbral.Prelude.Residue.{
  residue, zero_r, neg_r, ◌⊕◌, ⊕-neg, ⊕_comm, ⊕_assoc, zero-⊕,
}
use nucypher_kms_umbral.Backend.Laws.{
  BignumLaws, RandomLaws, CurveLaws, EncodingLaws, EcdsaLaws, AeadLaws,
}
use nucypher_kms_umbral.Toy.Group.{
  seven, prime, one_ne_zero, multiple, multiple-zero, multiple-suc, multiple-seven,
  compare_points_lem, of_octets-to_octets, to_octets,
}
use nucypher_kms_umbral.Toy.Numbers.{
  be_value-whole, be_digits-IsBytes, search_inverse, search_inverse-found, search_inverse-none,
}
use nucypher_kms_umbral.Toy.Code.{toy, encode_ints, decode_int, decode_ints}
use native.Mathlib.Nat.{mod-lt, add-mul-mod_self_left, div-add-mod}
use mathlib.Core.Option.{map as map_option}

mul-mod : (a c k : ℕ) → a * (c % k) % k ≡ a * c % k
mul-mod a c k =
    sym (add-mul-mod_self_left (a * (c % k)) k (a * (c / k)))
    ∙ ap (λ (t : ℕ). t % k) (omega (arith, ap (λ (t : ℕ). a * t) (div-add-mod c k)))

found :
    (a c k : ℕ)
    → 0 < k
    → a * c % k ≡ 1 % k
    → (i : ℕ) × (map_option pos (search_inverse a k k) ≡ some (pos i))
      × (i < k)
      × (a * i % k ≡ 1 % k)
found a c k lt e = lift (search_inverse-found a k k (c % k) (mod-lt c lt) (mul-mod a c k ∙ e))
  where
    lift :
        (i : ℕ) × (search_inverse a k k ≡ some i) × (i < k) × (a * i % k ≡ 1 % k)
        → (i : ℕ) × (map_option pos (search_inverse a k k) ≡ some (pos i))
          × (i < k)
          × (a * i % k ≡ 1 % k)
    lift (i, e', lt', inv) = (i, ap (map_option pos) e', lt', inv)

instance pub toy_numbers : BignumLaws
toy_numbers = record {
  int_of_bn = λ z. refl;
  bn_of_int = λ z. refl;
  int_to_bn_pos = λ k. refl;
  int_to_bn_negative = λ k. refl;
  cmp = λ x y. refl;
  bin2bn = λ bs. refl;
  bn2bin_value = be_value-whole;
  bn2bin_bytes = λ k. be_digits-IsBytes k k;
  bn2bin_length = λ k. length-be_digits k k;
  num_bytes_mono = λ j k h. h;
  reduce = λ a k h. refl;
  sub = λ x y. refl;
  add = λ a c. refl;
  mod_add = λ a c k h. refl;
  mod_sub = λ a c k h. refl;
  mod_mul = λ a c k h. refl;
  mod_inverse = found;
  mod_inverse_none = λ a k h. ap (map_option pos) (search_inverse-none a k k h);
}

replicate-IsBytes : (k x : ℕ) → x < 256 → IsBytes (replicate k x)
replicate-IsBytes zero x h = tt
replicate-IsBytes (suc k) x h = (h, replicate-IsBytes k x h)

instance pub toy_random : RandomLaws
toy_random = record {
  rand_range = λ k rng h. (rng % k, suc rng, refl, mod-lt rng h);
  urandom_length = λ k rng. length-replicate k (rng % 256);
  urandom_bytes = λ k rng. replicate-IsBytes k (rng % 256) (mod-lt rng (omega arith));
}

instance abbrev pub toy_curve : CurveLaws
toy_curve = record {
  group = tt;
  by_name = refl;
  order = 7;
  order_large = omega arith;
  get_order = refl;
  order_prime = prime;
  generator = residue 1;
  get_generator = refl;
  plus = ◌⊕◌;
  identity = zero_r;
  negate = neg_r;
  times = multiple;
  plus_assoc = ⊕_assoc;
  plus_comm = ⊕_comm;
  plus_identity = zero-⊕;
  plus_negate = ⊕-neg;
  generator_ne = one_ne_zero;
  times_zero = multiple-zero;
  times_suc = multiple-suc;
  times_order = multiple-seven;
  add = λ p q. refl;
  mul = λ p k. refl;
  invert = λ p. refl;
  cmp = compare_points_lem;
}

to_octets-zero : to_octets zero_r ≡ 0 ∷ []
unfolding to_octets zero_r residue
to_octets-zero = refl

instance pub toy_encoding : EncodingLaws
toy_encoding = record {
  size = 2;
  size_of_degree = omega arith;
  point2oct =
      λ p h. (2 ∷ p.0 ∷ [], ap some (of_octets-to_octets p h).0, refl, (of_octets-to_octets p h).1);
  point2oct_identity = ap some to_octets-zero;
}

instance pub toy_aead : AeadLaws
toy_aead = record {
  hkdf_length = λ k salt info input. length-replicate k 0;
  encrypt_length = λ plaintext ad nonce key. length-append plaintext (0 ∷ []);
  decrypt_encrypt = λ plaintext ad nonce key h h'. opened plaintext;
}
  where
    opened :
        (plaintext : List ℕ)
        → some (take (length (plaintext ++ (0 ∷ [])) - 1) (plaintext ++ (0 ∷ []))) ≡ some plaintext
    opened plaintext =
        ap some (take-append _ plaintext (0 ∷ []) (omega (arith, length-append plaintext (0 ∷ []))))

decode_encode : (r s : ℤ) → decode_ints (encode_ints r s) ≡ (r, s)
unfolding decode_ints encode_ints decode_int
decode_encode (pos r) (pos s) = refl
decode_encode (pos r) (negsuc s) = refl
decode_encode (negsuc r) (pos s) = refl
decode_encode (negsuc r) (negsuc s) = refl

instance pub toy_ecdsa : EcdsaLaws
toy_ecdsa = record {
  private_key = λ k. k;
  set_private_key = λ k h h'. refl;
  public_key = λ p. p;
  set_public_key = λ p h. refl;
  decode_encode = decode_encode;
  sign = λ k digest rng h h'. (
    1,
    5,
    suc rng,
    refl,
    (omega arith, omega arith, omega arith, omega arith),
    ap (λ (ints : ℤ × ℤ). ints.0 ==ℤ pos 1) (decode_encode (pos 1) (pos 5)),
  );
  verify_opposite = λ key r s digest h h'.
      ap (λ (ints : ℤ × ℤ). ints.0 ==ℤ pos 1) (decode_encode (pos r) (pos (7 - s)))
      ∙ ap (λ (ints : ℤ × ℤ). ints.0 ==ℤ pos 1) (sym (decode_encode (pos r) (pos s)));
}
