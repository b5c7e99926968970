-- ===== src/Tests/Script.antt =====
-- The script and the vectors of fragments at concrete keys, with a threshold of two and three fragments.
use nucypher_kms_umbral.Prelude.{
  ℕ, suc, ◌<◌, ◌≡◌, ◌≢◌, refl, ap, inl, inr, pos, pos_part, true, [], ◌∷◌, ok, err, out_of_fuel,
  List, Result, All, replicate, take, arith, ◌++◌, map, traverse,
}
use nucypher_kms_umbral.Prelude.Bytes.{Bytes, to_bytes, be_value, hex}
use nucypher_kms_umbral.Prelude.Residue.{Residue, residue, zero_r}
use nucypher_kms_umbral.Backend.Random.{for_each, Random}
use nucypher_kms_umbral.Openssl.Secp256k1.{secp256k1, scalar_modulus}
use nucypher_kms_umbral.CurvePoint.Defs.{point_serial}
use nucypher_kms_umbral.CurveScalar.Defs.{CurveScalar, scalar_serial}
use nucypher_kms_umbral.CurveScalar.Arithmetic.{scalar}
use nucypher_kms_umbral.CurvePoint.Arithmetic.{pt, smul}
use nucypher_kms_umbral.Keys.Defs.{random_secret_key}
use nucypher_kms_umbral.Keys.Pairs.{public_of, key_of}
use nucypher_kms_umbral.Hashing.Defs.{hash_to_polynomial_arg}
use nucypher_kms_umbral.Hashing.ToPoint.{Parameters}
use nucypher_kms_umbral.Capsule.Defs.{Capsule}
use nucypher_kms_umbral.KeyFrag.Defs.{VerifiedKeyFrag, kfrag_serial}
use nucypher_kms_umbral.CapsuleFrag.Defs.{VerifiedCapsuleFrag}
use nucypher_kms_umbral.Pre.Defs.{SomeKeyFrag, encrypt, generate_kfrags, reencrypt}
use nucypher_kms_umbral.Pre.Shares.{kfrag_index}
use nucypher_kms_umbral.Example.Script.{run}
use nucypher_kms_umbral.Example.Reread.{NoIdentity}
use nucypher_kms_umbral.Example.Run.{IsAttempt, run_lem}
use nucypher_kms_umbral.Example.Vectors.{kfrag_vectors}
use nucypher_kms_umbral.Example.Deserialized.{HasNoIdentity, kfrag_vectors-generate_kfrags}
use nucypher_kms_umbral.Serializable.Defs.{from_bytes}
use nucypher_kms_umbral.KeyFrag.Generate.{try_ephemeral}
use nucypher_kms_umbral.CapsuleFrag.Accepted.{key_frag}
use nucypher_kms_umbral.Toy.Group.{to_octets, multiple}
use nucypher_kms_umbral.Toy.Numbers.{search_inverse}
use nucypher_kms_umbral.Tests.Data.{signature}
use nucypher_kms_umbral.Toy.Code.{toy, checksum, encode_ints, decode_ints}
use nucypher_kms_umbral.Toy.Laws.{
  toy_numbers, toy_random, toy_curve, toy_encoding, toy_ecdsa, toy_aead,
}

instance abbrev toy_parameters : Parameters
toy_parameters = record { u = pt toy_curve.generator }

abbrev sample : List VerifiedKeyFrag → ℕ → Random (List VerifiedKeyFrag)
sample l k rng = ok (take k l, rng)

abbrev one_time : ℕ → Residue → VerifiedKeyFrag
one_time byte key = record {
  kfrag =
      key_frag (record { id = replicate 32 byte }) key (pt (smul (residue 4) toy_curve.generator))
        signature signature true true;
}

abbrev all_kfrags : List VerifiedKeyFrag
all_kfrags = one_time 11 (residue 3) ∷ one_time 14 (residue 5) ∷ one_time 17 (residue 2) ∷ []

abbrev kfrags : List VerifiedKeyFrag
kfrags = one_time 11 (residue 3) ∷ one_time 14 (residue 5) ∷ []

abbrev capsule : Capsule
capsule = record {
  point_e = pt (smul (residue 6) toy_curve.generator);
  point_v = pt (smul (residue 1) toy_curve.generator);
  signature = scalar (residue 2);
}

-- The answer to a fragment with the given key, for the scalar `t` that is drawn.
abbrev answered_with : ℕ → Residue → Residue → Residue → VerifiedCapsuleFrag
answered_with byte key t z = record {
  cfrag = record {
    point_e1 = pt (smul key (smul (residue 6) toy_curve.generator));
    point_v1 = pt (smul key (smul (residue 1) toy_curve.generator));
    kfrag_id = record { id = replicate 32 byte };
    precursor = pt (smul (residue 4) toy_curve.generator);
    proof = record {
      point_e2 = pt (smul t (smul (residue 6) toy_curve.generator));
      point_v2 = pt (smul t (smul (residue 1) toy_curve.generator));
      kfrag_commitment = pt (smul key toy_curve.generator);
      kfrag_pok = pt (smul t toy_curve.generator);
      signature = scalar z;
      kfrag_signature = signature;
    };
  };
}

abbrev cfrags : List VerifiedCapsuleFrag
cfrags =
    answered_with 11 (residue 3) (residue 3) (residue 1)
    ∷ answered_with 14 (residue 5) (residue 4) (residue 4)
    ∷ []

abbrev ciphertext : Bytes
ciphertext = 7 ∷ 7 ∷ 7 ∷ 8 ∷ 0 ∷ []

alice : random_secret_key 3 ≡ ok (key_of (residue 4), 4)
unfolding random_secret_key residue smul multiple
alice = refl

signer : random_secret_key 4 ≡ ok (key_of (residue 5), 5)
unfolding random_secret_key residue smul multiple
signer = refl

encrypted : encrypt (public_of (residue 4)) (7 ∷ 8 ∷ []) 5 ≡ ok ((capsule, ciphertext), 8)
unfolding encrypt to_bytes be_value checksum to_octets multiple smul residue point_serial
    scalar_serial
encrypted = refl

bob : random_secret_key 8 ≡ ok (key_of (residue 3), 9)
unfolding random_secret_key residue smul multiple
bob = refl

generated :
    generate_kfrags 3
      (key_of (residue 4))
      (public_of (residue 3))
      (record { secret_key = key_of (residue 5) })
      (pos 2)
      (pos 3)
      true
      true
      9
    ≡ ok (all_kfrags, 20)
unfolding generate_kfrags try_ephemeral to_bytes be_value checksum to_octets multiple smul
    search_inverse residue decode_ints encode_ints
generated = refl

answers : for_each (λ k. reencrypt capsule (SomeKeyFrag.verified k)) kfrags 20 ≡ ok (cfrags, 22)
unfolding for_each reencrypt to_bytes be_value checksum to_octets multiple smul residue
answers = refl

abbrev number : Result CurveScalar → ℕ
number (ok index) = pos_part index.backend_bignum
number (err e) = 0
number out_of_fuel = 0

indices_differ :
    kfrag_index (residue 3) (one_time 11 (residue 3)).kfrag
    ≢ kfrag_index (residue 3) (one_time 14 (residue 5)).kfrag
unfolding to_bytes be_value checksum to_octets multiple smul residue hash_to_polynomial_arg
indices_differ e = omega (arith, ap number e)

nonzero : (p : toy.Point) → 0 < p.0 → p ≢ toy_curve.identity
unfolding residue zero_r
nonzero p h e = omega (arith, h, ap (λ (q : toy.Point). q.0) e)

regular : All (λ (cfrag : VerifiedCapsuleFrag). NoIdentity cfrag.cfrag) cfrags
unfolding multiple smul residue
regular = (
  (
    nonzero _ (omega arith),
    nonzero _ (omega arith),
    nonzero _ (omega arith),
    nonzero _ (omega arith),
    nonzero _ (omega arith),
    nonzero _ (omega arith),
    nonzero _ (omega arith),
  ),
  (
    (
      nonzero _ (omega arith),
      nonzero _ (omega arith),
      nonzero _ (omega arith),
      nonzero _ (omega arith),
      nonzero _ (omega arith),
      nonzero _ (omega arith),
      nonzero _ (omega arith),
    ),
    tt,
  ),
)

run_lem_example :
    (failed : List Bytes) × IsAttempt failed
    × (run sample 3 (suc 1) 3 (7 ∷ 8 ∷ []) 3
        ≡ ok (ciphertext ∷ (7 ∷ 8 ∷ []) ∷ (failed ++ ((7 ∷ 8 ∷ []) ∷ [])), 22))
run_lem_example =
    run_lem sample (residue 4) (residue 5) (residue 3) 1 3 3 (7 ∷ 8 ∷ []) 3 4 5 8 9 20 20 22 capsule
      ciphertext all_kfrags kfrags cfrags alice signer encrypted bob generated refl
      (inl refl, (inr (inl refl), tt)) ((indices_differ, tt), (tt, tt)) refl answers regular

five_nonzero : residue 5 ≢ zero_r
unfolding residue zero_r
five_nonzero e = omega (arith, ap (λ (r : Residue). r.0) e)

regular_kfrags : All (λ (k : VerifiedKeyFrag). HasNoIdentity k.kfrag) all_kfrags
unfolding multiple smul residue
regular_kfrags = (
  (nonzero _ (omega arith), nonzero _ (omega arith)),
  (
    (nonzero _ (omega arith), nonzero _ (omega arith)),
    ((nonzero _ (omega arith), nonzero _ (omega arith)), tt),
  ),
)

kfrag_vectors-generate_kfrags_example :
    (encodings : List Bytes) × (kfrag_vectors
        (public_of (residue 5))
        (public_of (residue 4))
        (public_of (residue 3))
        all_kfrags
      ≡ ok (map hex encodings))
    × (traverse (from_bytes kfrag_serial) encodings
        ≡ ok (map (λ (k : VerifiedKeyFrag). k.kfrag) all_kfrags))
kfrag_vectors-generate_kfrags_example =
    kfrag_vectors-generate_kfrags (residue 4) (residue 3) (residue 5) 1 3 3 true true five_nonzero 9
      all_kfrags generated regular_kfrags
