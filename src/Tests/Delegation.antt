-- ===== src/Tests/Delegation.antt =====
-- A whole delegation at concrete keys: three fragments of the key, of which two proxies use two.
use nucypher_kms_umbral.Prelude.{
  ℕ, suc, ◌≡◌, ◌≢◌, refl, ap, inl, inr, pos, pos_part, true, false, [], ◌∷◌, ok, err, out_of_fuel,
  some, List, length, Result, map, All, replicate, arith,
}
use nucypher_kms_umbral.Prelude.Bytes.{to_bytes, be_value}
use nucypher_kms_umbral.Prelude.Residue.{Residue, residue, zero_r}
use nucypher_kms_umbral.Backend.Random.{for_each}
use nucypher_kms_umbral.Openssl.Secp256k1.{secp256k1, scalar_modulus}
use nucypher_kms_umbral.CurveScalar.Defs.{CurveScalar, random_nonzero}
use nucypher_kms_umbral.CurvePoint.Arithmetic.{pt, smul}
use nucypher_kms_umbral.Keys.Pairs.{public_of, key_of}
use nucypher_kms_umbral.Hashing.Defs.{hash_to_shared_secret, hash_to_polynomial_arg}
use nucypher_kms_umbral.Hashing.ToPoint.{Parameters}
use nucypher_kms_umbral.Capsule.Original.{capsule_of}
use nucypher_kms_umbral.KeyFrag.Defs.{VerifiedKeyFrag}
use nucypher_kms_umbral.KeyFrag.Defs as KeyFrag
use nucypher_kms_umbral.KeyFrag.Generate.{try_ephemeral}
use nucypher_kms_umbral.KeyFrag.Drawn.{StopsWithin}
use nucypher_kms_umbral.CapsuleFrag.Defs.{VerifiedCapsuleFrag, verify}
use nucypher_kms_umbral.CapsuleFrag.Accepted.{key_frag}
use nucypher_kms_umbral.Pre.Defs.{
  SomeKeyFrag, SomeCapsuleFrag, generate_kfrags, reencrypt, decrypt_reencrypted,
}
use nucypher_kms_umbral.Pre.Generated.{generate_kfrags-StopsWithin}
use nucypher_kms_umbral.Pre.Shares.{kfrag_index}
use nucypher_kms_umbral.Pre.Delegated.{decrypt_reencrypted-generate_kfrags}
use nucypher_kms_umbral.Toy.Group.{to_octets, multiple}
use nucypher_kms_umbral.Toy.Numbers.{search_inverse}
use nucypher_kms_umbral.Toy.Code.{toy, checksum, encode_ints, decode_ints}
use nucypher_kms_umbral.Toy.Laws.{
  toy_numbers, toy_random, toy_curve, toy_encoding, toy_ecdsa, toy_aead,
}
use nucypher_kms_umbral.Tests.Data.{signature, encryption, six_ne}

instance abbrev toy_parameters : Parameters
toy_parameters = record { u = pt toy_curve.generator }

-- A fragment with the given byte in its id, and the given key.
abbrev vkfrag : ℕ → Residue → VerifiedKeyFrag
vkfrag byte key = record {
  kfrag =
      key_frag (record { id = replicate 32 byte }) key (pt (smul (residue 5) toy_curve.generator))
        signature signature true false;
}

abbrev vkfrags : List VerifiedKeyFrag
vkfrags = vkfrag 6 (residue 1) ∷ vkfrag 9 (residue 3) ∷ vkfrag 12 (residue 5) ∷ []

generated :
    generate_kfrags 3
      (key_of (residue 3))
      (public_of (residue 2))
      (record { secret_key = key_of (residue 5) })
      (pos 2)
      (pos 3)
      true
      false
      4
    ≡ ok (vkfrags, 15)
unfolding generate_kfrags try_ephemeral to_bytes be_value checksum to_octets multiple smul
    search_inverse residue decode_ints encode_ints
generated = refl

abbrev number : Result CurveScalar → ℕ
number (ok index) = pos_part index.backend_bignum
number (err e) = 0
number out_of_fuel = 0

indices_differ :
    kfrag_index (residue 2) (vkfrag 12 (residue 5)).kfrag
    ≢ kfrag_index (residue 2) (vkfrag 6 (residue 1)).kfrag
unfolding to_bytes be_value checksum to_octets multiple smul residue hash_to_polynomial_arg
indices_differ e = omega (arith, ap number e)

five_ne : residue 5 ≢ zero_r
unfolding residue zero_r
five_ne e = omega (arith, ap (λ (t : Residue). t.0) e)

decrypt_reencrypted-generate_kfrags_example :
    (vcfrags : List VerifiedCapsuleFrag) × (rng' : toy.Rng) × (for_each
        (λ k.
          reencrypt (capsule_of encryption.r encryption.u encryption.h) (SomeKeyFrag.verified k))
        (vkfrag 12 (residue 5) ∷ vkfrag 6 (residue 1) ∷ [])
        20
      ≡ ok (vcfrags, rng'))
    × All
        (λ (vcfrag : VerifiedCapsuleFrag).
          verify vcfrag.cfrag
            (capsule_of encryption.r encryption.u encryption.h)
            (public_of (residue 5))
            (public_of (residue 3))
            (public_of (residue 2))
          ≡ ok vcfrag)
        vcfrags
    × (decrypt_reencrypted
          (key_of (residue 2))
          (public_of (residue 3))
          (capsule_of encryption.r encryption.u encryption.h)
          (map SomeCapsuleFrag.verified vcfrags)
          encryption.ciphertext
        ≡ ok (7 ∷ 8 ∷ []))
decrypt_reencrypted-generate_kfrags_example =
    decrypt_reencrypted-generate_kfrags (residue 3) (residue 2) (residue 5) 1 3 3 true false five_ne
      (7 ∷ 8 ∷ []) 5 4 encryption.run generated (vkfrag 12 (residue 5) ∷ vkfrag 6 (residue 1) ∷ [])
      (inr (inr (inl refl)), (inl refl, tt)) ((indices_differ, tt), (tt, tt)) (omega arith) 20

stops : StopsWithin 3 (residue 2) 4
unfolding random_nonzero hash_to_shared_secret to_bytes be_value checksum to_octets multiple smul
    residue
stops = (residue 5, residue 6, 5, refl, refl, inl six_ne)

generate_kfrags-StopsWithin_example :
    (vkfrags : List VerifiedKeyFrag) × (rng' : toy.Rng) × (generate_kfrags 3
        (key_of (residue 3))
        (public_of (residue 2))
        (record { secret_key = key_of (residue 5) })
        (pos (suc 1))
        (pos 3)
        true
        false
        4
      ≡ ok (vkfrags, rng'))
    × (length vkfrags ≡ 3)
    × All
        (λ (vkfrag : VerifiedKeyFrag).
          KeyFrag.verify vkfrag.kfrag
            (public_of (residue 5))
            (some (public_of (residue 3)))
            (some (public_of (residue 2)))
          ≡ ok vkfrag)
        vkfrags
generate_kfrags-StopsWithin_example =
    generate_kfrags-StopsWithin (residue 3) (residue 2) (residue 5) 1 3 3 true false five_ne 4 stops
      (omega arith)
