-- ===== src/Example/Granted.antt =====
-- The second part of the script: what Bob opens is the plaintext.
use nucypher_kms_umbral.Prelude.{
  ℕ, suc, ◌==◌, ◌≡◌, ◌≢◌, refl, sym, ◌∙◌, true, List, [], ◌∷◌, map, length, length-map, pos, ok,
  assertion_error, raise_if, not, All, traverse, arith,
}
use mathlib.Core.Path.{subst}
use nucypher_kms_umbral.Prelude.Bytes.{Bytes, ◌==b◌, ==b_iff}
use nucypher_kms_umbral.Prelude.Residue.{Residue, zero_r}
use nucypher_kms_umbral.Backend.Interface.{Backend}
use nucypher_kms_umbral.Backend.Laws.{
  BignumLaws, CurveLaws, EncodingLaws, RandomLaws, EcdsaLaws, AeadLaws,
}
use nucypher_kms_umbral.Backend.Random.{Random, for_each, run_bind, run_lift}
use nucypher_kms_umbral.Openssl.Secp256k1.{secp256k1, scalar_modulus}
use nucypher_kms_umbral.Keys.Pairs.{public_of, key_of}
use nucypher_kms_umbral.Hashing.ToPoint.{Parameters}
use nucypher_kms_umbral.Capsule.Defs.{Capsule}
use nucypher_kms_umbral.Capsule.Original.{capsule_of}
use nucypher_kms_umbral.KeyFrag.Defs.{VerifiedKeyFrag}
use nucypher_kms_umbral.CapsuleFrag.Defs.{CapsuleFrag, VerifiedCapsuleFrag, verify}
use nucypher_kms_umbral.Pre.Defs.{
  SomeKeyFrag, SomeCapsuleFrag, encrypt, generate_kfrags, reencrypt, decrypt_reencrypted,
}
use nucypher_kms_umbral.Pre.Original.{encrypt-ok}
use nucypher_kms_umbral.Pre.Generated.{generate-Generated}
use nucypher_kms_umbral.Pre.Shares.{Among, DistinctIndices, as_checked, shares-Among}
use nucypher_kms_umbral.Pre.Delegated.{decrypt_reencrypted-generate_kfrags}
use nucypher_kms_umbral.Example.Script.{reread, open_by_bob, grant}
use nucypher_kms_umbral.Example.Reread.{NoIdentity, each_read}

module _ ⦃lib : Backend⦄ ⦃bignum : BignumLaws⦄ ⦃curve : CurveLaws⦄ ⦃encoding : EncodingLaws⦄
    ⦃random : RandomLaws⦄ ⦃aead : AeadLaws⦄ where
  open curve use {generator as g}

  module _ ⦃ecdsa : EcdsaLaws⦄ ⦃params : Parameters⦄ where
    traverse-verify :
        (capsule : Capsule) (a s c : Residue) (cfrags : List CapsuleFrag)
        → All
            (λ (vcfrag : VerifiedCapsuleFrag).
              verify vcfrag.cfrag capsule (public_of s) (public_of a) (public_of c) ≡ ok vcfrag)
            (map as_checked cfrags)
        → traverse
            (λ (cfrag : CapsuleFrag).
              verify cfrag capsule (public_of s) (public_of a) (public_of c))
            cfrags
          ≡ ok (map as_checked cfrags)
    unfolding traverse
    traverse-verify capsule a s c [] h = refl
    traverse-verify capsule a s c (cfrag ∷ cfrags) (e, h) =
        rw (e, traverse-verify capsule a s c cfrags h) refl

    unchecked :
        (cfrags : List CapsuleFrag)
        → All (λ (vcfrag : VerifiedCapsuleFrag). NoIdentity vcfrag.cfrag) (map as_checked cfrags)
        → All NoIdentity cfrags
    unchecked [] h = tt
    unchecked (c ∷ cfrags) (r, h) = (r, unchecked cfrags h)

    same_bytes : (bs : Bytes) → (bs ==b bs) ≡ true
    same_bytes bs = (==b_iff bs bs).1 refl

    module _ (sample : List VerifiedKeyFrag → ℕ → Random (List VerifiedKeyFrag)) (a b' s : Residue)
        (n m fuel : ℕ) (signs : s ≢ zero_r) (plaintext : Bytes)
        (rng₀ rng₁ rng₂ rng₃ rng₄ rng₅ : lib.Rng) (capsule : Capsule) (ciphertext : Bytes)
        (all_kfrags kfrags : List VerifiedKeyFrag) (cfrags : List VerifiedCapsuleFrag)
        (encrypted : encrypt (public_of a) plaintext rng₀ ≡ ok ((capsule, ciphertext), rng₁))
        (generated : generate_kfrags fuel
            (key_of a)
            (public_of b')
            (record { secret_key = key_of s })
            (pos (suc n))
            (pos m)
            true
            true
            rng₂
          ≡ ok (all_kfrags, rng₃))
        (sampled : sample all_kfrags (suc n) rng₃ ≡ ok (kfrags, rng₄))
        (among : All (λ k. Among k all_kfrags) kfrags) (distinct : DistinctIndices b' kfrags)
        (size : length kfrags ≡ suc n)
        (answered : for_each (λ k. reencrypt capsule (SomeKeyFrag.verified k)) kfrags rng₄
          ≡ ok (cfrags, rng₅))
        (regular : All (λ (cfrag : VerifiedCapsuleFrag). NoIdentity cfrag.cfrag) cfrags) where
      abbrev Opens : List VerifiedCapsuleFrag → Type 0
      Opens l =
          (length l ≡ suc n)
          × (open_by_bob (key_of b') (public_of a) (public_of s) capsule ciphertext l
              ≡ ok plaintext)

      open_raw :
          (raw : List CapsuleFrag)
          → length raw ≡ length kfrags
          → traverse reread (map as_checked raw) ≡ ok raw
          → All
              (λ (vcfrag : VerifiedCapsuleFrag).
                verify vcfrag.cfrag capsule (public_of s) (public_of a) (public_of b') ≡ ok vcfrag)
              (map as_checked raw)
          → decrypt_reencrypted
              (key_of b')
              (public_of a)
              capsule
              (map SomeCapsuleFrag.verified (map as_checked raw))
              ciphertext
            ≡ ok plaintext
          → Opens (map as_checked raw)
      unfolding open_by_bob
      open_raw raw count back valid decrypted = (
        length-map raw as_checked ∙ count ∙ size,
        rw (back, traverse-verify capsule a s b' raw valid) decrypted,
      )

      opens : Opens cfrags
      opens =
          let e = encrypt-ok a plaintext rng₀ in
          let (t, d, coeffs, made, same, secret, nonzero, _, _, shares) =
            generate-Generated a b' s n m fuel true true signs rng₂ generated in
          let same_capsule : capsule_of e.r e.u e.h ≡ capsule = cc (e.run, encrypted) in
          let (vcfrags, rng', answers, valid, decrypted) =
            decrypt_reencrypted-generate_kfrags a b' s n m fuel true true signs plaintext rng₀ rng₂
              encrypted generated kfrags among distinct (omega (arith, size)) rng₄ in
          let (raw, rng'', runs, count, back) =
            each_read a b' s t d coeffs true true e.r e.u e.h kfrags
              (shares-Among a b' s t d coeffs true true kfrags made shares
                (subst (λ l. All (λ k. Among k l) kfrags) same among))
              rng₄ in
          let runs' =
            subst
              (λ c.
                for_each (λ k. reencrypt c (SomeKeyFrag.verified k)) kfrags rng₄
                ≡ ok (map as_checked raw, rng''))
              same_capsule runs in
          let first : vcfrags ≡ map as_checked raw = cc (answers, runs') in
          let second : map as_checked raw ≡ cfrags = cc (runs', answered) in
          subst Opens second (
            open_raw raw count
              (back (
                unchecked raw (
                  subst (All (λ (cfrag : VerifiedCapsuleFrag). NoIdentity cfrag.cfrag)) (sym second)
                    regular)))
              (subst
                (All (λ (vcfrag : VerifiedCapsuleFrag).
                  verify vcfrag.cfrag capsule (public_of s) (public_of a) (public_of b')
                  ≡ ok vcfrag))
                first valid)
              (subst
                (λ l.
                  decrypt_reencrypted (key_of b') (public_of a) capsule
                    (map SomeCapsuleFrag.verified l) ciphertext
                  ≡ ok plaintext)
                first decrypted))

      pub grant_run :
          grant sample fuel
            (suc n)
            m
            plaintext
            (key_of a)
            (key_of s)
            (key_of b')
            capsule
            ciphertext
            rng₂
          ≡ ok (plaintext, rng₅)
      unfolding grant
      grant_run =
          run_bind
            (generate_kfrags fuel (key_of a) (public_of b') (record { secret_key = key_of s })
              (pos (suc n)) (pos m) true true)
            _ generated
          ∙ run_bind (sample all_kfrags (suc n)) _ sampled
          ∙ run_bind (for_each (λ k. reencrypt capsule (SomeKeyFrag.verified k)) kfrags) _ answered
          ∙ run_lift _ counted
          ∙ run_lift _ opens.1
          ∙ run_lift _ same_text
        where
          counted : raise_if (not (length cfrags == suc n)) assertion_error ≡ ok tt
          counted = let e : (length cfrags == suc n) ≡ true = ground (arith, opens.0) in rw e refl

          same_text : raise_if (not (plaintext ==b plaintext)) assertion_error ≡ ok tt
          same_text = rw (same_bytes plaintext) refl
