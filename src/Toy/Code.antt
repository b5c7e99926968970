-- ===== src/Toy/Code.antt =====
-- An instance of the third-party code: a group of order 7, a counter as the source of randomness,
-- a checksum as the hash, whose first byte tells odd sums, and a cipher that only appends a tag.
use nucypher_kms_umbral.Prelude.{
  ℕ, zero, suc, ◌+◌, ◌-◌, ◌*◌, ◌%◌, [], ◌∷◌, ◌++◌, some, Result, ok, err, overflow_error, ℤ, pos,
  negsuc, pos_part, ◌-ℤ◌, cmp_ℤ, ◌==ℤ◌, length, take, replicate,
}
use nucypher_kms_umbral.Prelude.Bytes.{Bytes, be_value, be_digits}
use nucypher_kms_umbral.Prelude.Residue.{Residue, residue, ◌⊕◌, neg_r}
use nucypher_kms_umbral.Backend.Interface.{Backend}
use nucypher_kms_umbral.Toy.Group.{seven, multiple, compare_points, to_octets, of_octets}
use nucypher_kms_umbral.Toy.Numbers.{search_inverse}
use mathlib.Core.Option.{map as map_option}

unfoldable pub checksum : Bytes → ℕ
checksum [] = 0
checksum (x ∷ xs) = (x + checksum xs) % 251

unfoldable pub encode_ints : ℤ → ℤ → Bytes
encode_ints (pos r) (pos s) = 0 ∷ r ∷ 0 ∷ s ∷ []
encode_ints (pos r) (negsuc s) = 0 ∷ r ∷ 1 ∷ s ∷ []
encode_ints (negsuc r) (pos s) = 1 ∷ r ∷ 0 ∷ s ∷ []
encode_ints (negsuc r) (negsuc s) = 1 ∷ r ∷ 1 ∷ s ∷ []

unfoldable pub decode_int : ℕ → ℕ → ℤ
decode_int zero k = pos k
decode_int (suc _) k = negsuc k

unfoldable pub decode_ints : Bytes → ℤ × ℤ
unfolding decode_int
decode_ints (i ∷ r ∷ j ∷ s ∷ []) = (decode_int i r, decode_int j s)
decode_ints _ = (pos 0, pos 0)

abbrev pub toy_int_to_bn : ℤ → Result ℤ
toy_int_to_bn (pos k) = ok (pos k)
toy_int_to_bn (negsuc k) = err overflow_error

instance abbrev pub toy : Backend
toy = record {
  Bignum = ℤ;
  bn_of = λ z. z;
  int_to_bn = toy_int_to_bn;
  bn_to_int = λ z. z;
  bn_cmp = cmp_ℤ;
  bn_bin2bn = λ bs. pos (be_value bs);
  bn_bn2bin = λ z. be_digits (pos_part z) (pos_part z);
  bn_num_bytes = pos_part;
  bn_mod = λ a k. some (pos (pos_part a % pos_part k));
  bn_add = λ a c. some (pos (pos_part a + pos_part c));
  bn_sub = λ a c. some (a -ℤ c);
  bn_mod_add = λ a c k. some (pos ((pos_part a + pos_part c) % pos_part k));
  bn_mod_sub =
      λ a c k. some (pos ((pos_part a + (pos_part k - pos_part c % pos_part k)) % pos_part k));
  bn_mod_mul = λ a c k. some (pos (pos_part a * pos_part c % pos_part k));
  bn_mod_inverse = λ a k. map_option pos (search_inverse (pos_part a) (pos_part k) (pos_part k));
  Rng = ℕ;
  bn_rand_range = λ k rng. some (pos (rng % pos_part k), suc rng);
  urandom = λ k rng. (replicate k (rng % 256), suc rng);
  Group = Unit {0};
  Point = Residue;
  ec_group_new_by_curve_name = λ nid. some tt;
  ec_group_get_order = λ g. some (pos 7);
  ec_group_get0_generator = λ g. some (residue 1);
  ec_group_get_degree = λ g. 8;
  ec_point_add = λ g p q. some (p ⊕ q);
  ec_point_mul = λ g p k. some (multiple (pos_part k) p);
  ec_point_invert = λ g p. some (neg_r p);
  ec_point_cmp = λ g. compare_points;
  ec_point_get_affine_coordinates = λ g p. some (pos p.0, pos p.0);
  ec_point_oct2point = λ g. of_octets;
  ec_point_point2oct = λ g p size. some (to_octets p);
  PrivateKey = ℕ;
  PublicKey = Residue;
  ec_key_set_private_key = λ g k. some (pos_part k);
  ec_key_set_public_key = λ g p. some p;
  ecdsa_sign = λ key digest rng. some (encode_ints (pos 1) (pos 5), suc rng);
  ecdsa_verify = λ key signature digest. (decode_ints signature).0 ==ℤ pos 1;
  decode_dss_signature = decode_ints;
  encode_dss_signature = encode_ints;
  hash_of = λ class_name bs. pos (length bs);
  HashContext = Bytes;
  hash_new = [];
  hash_update = λ c bs. c ++ bs;
  hash_finalize = λ c. (checksum c % 2 * 7) ∷ (replicate 30 0 ++ (checksum c ∷ []));
  hkdf_sha256 = λ k salt info input. replicate k 0;
  xchacha_key_size = 4;
  xchacha_nonce_size = 2;
  xchacha_tag_size = 1;
  xchacha_encrypt = λ plaintext ad nonce key. plaintext ++ (0 ∷ []);
  xchacha_decrypt = λ sealed ad nonce key. some (take (length sealed - 1) sealed);
}
