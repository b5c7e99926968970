-- ===== src/Pre/Delegated.antt =====
-- The whole path of a delegation: encryption, fragments of the key, proxies, and the delegate.
use nucypher_kms_umbral.Prelude.{
  ℕ, suc, ◌≤◌, ◌≡◌, ◌≢◌, refl, sym, ap, ◌∙◌, pos, Bool, List, [], ◌∷◌, map, length, ok, All, arith,
}
use mathlib.Core.Path.{subst}
use nucypher_kms_umbral.Prelude.Bytes.{Bytes}
use nucypher_kms_umbral.Prelude.Residue.{Residue, zero_r}
use nucypher_kms_umbral.Backend.Interface.{Backend}
use nucypher_kms_umbral.Backend.Laws.{
  BignumLaws, CurveLaws, EncodingLaws, RandomLaws, EcdsaLaws, AeadLaws,
}
use nucypher_kms_umbral.Backend.Random.{for_each}
use nucypher_kms_umbral.Openssl.Secp256k1.{secp256k1, scalar_modulus}
use nucypher_kms_umbral.CurvePoint.Arithmetic.{pt, smul}
use nucypher_kms_umbral.Keys.Pairs.{public_of, key_of}
use nucypher_kms_umbral.Hashing.Defs.{hash_to_shared_secret}
use nucypher_kms_umbral.Hashing.ToPoint.{Parameters}
use nucypher_kms_umbral.Scheme.Lagrange.{Distinct}
use nucypher_kms_umbral.Capsule.Defs.{Capsule}
use nucypher_kms_umbral.Capsule.Original.{capsule_of, smul_comm}
use nucypher_kms_umbral.Capsule.Fragments.{Fragments}
use nucypher_kms_umbral.KeyFrag.Defs.{VerifiedKeyFrag}
use nucypher_kms_umbral.KeyFrag.Drawn.{IsSecret}
use nucypher_kms_umbral.CapsuleFrag.Defs.{CapsuleFrag, VerifiedCapsuleFrag, verify}
use nucypher_kms_umbral.Pre.Defs.{
  SomeKeyFrag, SomeCapsuleFrag, encrypt, generate_kfrags, reencrypt, decrypt_reencrypted,
}
use nucypher_kms_umbral.Pre.Original.{Encryption, encrypt-ok}
use nucypher_kms_umbral.Pre.Reencrypted.{verified_cfrag, decrypt_reencrypted-encrypt}
use nucypher_kms_umbral.Pre.Generated.{generate-Generated}
use nucypher_kms_umbral.Pre.Shares.{
  DistinctIndices, as_checked, Among, Share, shares-Among, xs_of, xs_of-Distinct, length-xs_of,
  Verifies, reencrypt_each-Shares,
}

module _ ⦃lib : Backend⦄ ⦃bignum : BignumLaws⦄ ⦃curve : CurveLaws⦄ ⦃encoding : EncodingLaws⦄
    ⦃random : RandomLaws⦄ ⦃ecdsa : EcdsaLaws⦄ ⦃params : Parameters⦄ where
  open curve use {generator as g}

  module _ ⦃aead : AeadLaws⦄ (a b s : Residue) (n m fuel : ℕ)
      (sign_delegating_key sign_receiving_key : Bool) (signs : s ≢ zero_r) (plaintext : Bytes) where
    -- What the theorem below concludes, for a capsule and its ciphertext.
    abbrev Delivers : Capsule → Bytes → List VerifiedKeyFrag → lib.Rng → Type 0
    Delivers capsule ciphertext chosen rng =
        (vcfrags : List VerifiedCapsuleFrag) × (rng' : lib.Rng) × (for_each
            (λ k. reencrypt capsule (SomeKeyFrag.verified k)) chosen rng
          ≡ ok (vcfrags, rng'))
        × All
            (λ (vcfrag : VerifiedCapsuleFrag).
              verify vcfrag.cfrag capsule (public_of s) (public_of a) (public_of b) ≡ ok vcfrag)
            vcfrags
        × (decrypt_reencrypted (key_of b) (public_of a) capsule
              (map SomeCapsuleFrag.verified vcfrags) ciphertext
            ≡ ok plaintext)

    decrypted :
        (rng₀ : lib.Rng) (e : Encryption a plaintext rng₀) (t d : Residue) (coeffs : List Residue)
        → IsSecret b t d
        → d ≢ zero_r
        → (cfrags : List CapsuleFrag) (x : Residue) (xs : List Residue)
        → Fragments a d e.r e.u b (smul t g) coeffs cfrags (x ∷ xs)
        → Distinct (x ∷ xs)
        → length coeffs ≤ length xs
        → decrypt_reencrypted
            (key_of b)
            (public_of a)
            (capsule_of e.r e.u e.h)
            (map SomeCapsuleFrag.verified (map as_checked cfrags))
            e.ciphertext
          ≡ ok plaintext
    decrypted rng₀ e t d coeffs secret nonzero [] x xs h distinct enough = absurd h
    decrypted rng₀ e t d coeffs secret nonzero (c ∷ cfrags) x xs h distinct enough =
        ap
          (λ l.
            decrypt_reencrypted (key_of b) (public_of a) (capsule_of e.r e.u e.h) l e.ciphertext)
          (wrapped (c ∷ cfrags))
        ∙ decrypt_reencrypted-encrypt a d b (smul t g) coeffs plaintext rng₀ e nonzero
            (ap (hash_to_shared_secret (pt (smul t g)) (pt (smul b g)))
                (ap pt (sym (smul_comm t b g)))
              ∙ secret)
            c cfrags x xs h distinct enough
      where
        wrapped :
            (l : List CapsuleFrag)
            → map SomeCapsuleFrag.verified (map as_checked l) ≡ map verified_cfrag l
        wrapped [] = refl
        wrapped (c' ∷ l) = ap (◌∷◌ (verified_cfrag c')) (wrapped l)

    module _ (rng₀ : lib.Rng) (e : Encryption a plaintext rng₀) (t d : Residue)
        (coeffs : List Residue) (secret : IsSecret b t d) (nonzero : d ≢ zero_r)
        (size : length coeffs ≡ n) where
      delivered :
          (chosen : List VerifiedKeyFrag)
          → All (Share a b s t d coeffs sign_delegating_key sign_receiving_key) chosen
          → DistinctIndices b chosen
          → suc n ≤ length chosen
          → (rng : lib.Rng) → Delivers (capsule_of e.r e.u e.h) e.ciphertext chosen rng
      unfolding xs_of
      delivered [] shares distinct enough rng = absurd (omega (arith, enough))
      delivered (k ∷ chosen) (share, shares) distinct enough rng =
          let (cfrags, rng', runs, carry, valid) =
            reencrypt_each-Shares a b s t d coeffs sign_delegating_key sign_receiving_key e.r e.u
              e.h (k ∷ chosen) (share, shares) rng in
          let xs = xs_of a b s t d coeffs sign_delegating_key sign_receiving_key chosen shares in
          (
            map as_checked cfrags,
            rng',
            runs,
            all_valid cfrags valid,
            decrypted rng₀ e t d coeffs secret nonzero cfrags share.x xs carry
                (xs_of-Distinct a b s t d coeffs sign_delegating_key sign_receiving_key (k ∷ chosen)
                  (share, shares) distinct)
                (omega (
                  arith,
                  enough,
                  size,
                  length-xs_of a b s t d coeffs sign_delegating_key sign_receiving_key chosen
                      shares,
                )),
          )
        where
          all_valid :
              (l : List CapsuleFrag)
              → All (Verifies a b s t d coeffs sign_delegating_key sign_receiving_key e.r e.u e.h) l
              → All
                  (λ (vcfrag : VerifiedCapsuleFrag).
                    verify vcfrag.cfrag
                      (capsule_of e.r e.u e.h)
                      (public_of s)
                      (public_of a)
                      (public_of b)
                    ≡ ok vcfrag)
                  (map as_checked l)
          all_valid [] h = tt
          all_valid (c ∷ l) (valid, h) = (valid, all_valid l h)

    -- Take a capsule and a ciphertext that `encrypt` made for the owner `a`, fragments of the key
    -- that `generate_kfrags` made for the delegate `b` with a threshold of `n + 1` and a signer
    -- whose key `s` is not zero, and a choice of at least `n + 1` of them whose indices are pairwise
    -- different. Then every proxy's `reencrypt` succeeds whatever it draws, every answer passes
    -- `verify` for the capsule and the keys, and `b` decrypts the plaintext with the answers.
    pub decrypt_reencrypted-generate_kfrags :
        (rng₀ : lib.Rng) {rng₁ : lib.Rng} (rng₂ : lib.Rng) {rng₃ : lib.Rng} {capsule : Capsule}
        {ciphertext : Bytes} {vkfrags : List VerifiedKeyFrag}
        → encrypt (public_of a) plaintext rng₀ ≡ ok ((capsule, ciphertext), rng₁)
        → generate_kfrags fuel
            (key_of a)
            (public_of b)
            (record { secret_key = key_of s })
            (pos (suc n))
            (pos m)
            sign_delegating_key
            sign_receiving_key
            rng₂
          ≡ ok (vkfrags, rng₃)
        → (chosen : List VerifiedKeyFrag) → All (λ k. Among k vkfrags) chosen
        → DistinctIndices b chosen
        → suc n ≤ length chosen
        → (rng : lib.Rng)
        → (vcfrags : List VerifiedCapsuleFrag) × (rng' : lib.Rng) × (for_each
              (λ k. reencrypt capsule (SomeKeyFrag.verified k))
              chosen
              rng
            ≡ ok (vcfrags, rng'))
          × All
              (λ (vcfrag : VerifiedCapsuleFrag).
                verify vcfrag.cfrag capsule (public_of s) (public_of a) (public_of b) ≡ ok vcfrag)
              vcfrags
          × (decrypt_reencrypted
                (key_of b)
                (public_of a)
                capsule
                (map SomeCapsuleFrag.verified vcfrags)
                ciphertext
              ≡ ok plaintext)
    decrypt_reencrypted-generate_kfrags rng₀ rng₂ {capsule} {ciphertext} {vkfrags} encrypted made
          chosen among distinct enough rng =
        let e = encrypt-ok a plaintext rng₀ in
        let (t, d, coeffs, kfrags, same, secret, nonzero, size, count, shares) =
          generate-Generated a b s n m fuel sign_delegating_key sign_receiving_key signs rng₂
            made in
        let same_capsule : capsule_of e.r e.u e.h ≡ capsule = cc (e.run, encrypted) in
        let same_ciphertext : e.ciphertext ≡ ciphertext = cc (e.run, encrypted) in
        subst (λ c. Delivers c ciphertext chosen rng) same_capsule
          (subst (λ c. Delivers (capsule_of e.r e.u e.h) c chosen rng) same_ciphertext
            (delivered rng₀ e t d coeffs secret nonzero size chosen
              (shares-Among a b s t d coeffs sign_delegating_key sign_receiving_key chosen kfrags
                shares (subst (λ l. All (λ k. Among k l) chosen) same among))
              distinct enough rng))
