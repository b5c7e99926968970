-- ===== src/Pre/Generated.antt =====
-- What `generate_kfrags` returns.
use nucypher_kms_umbral.Prelude.{
  ℕ, suc, ◌≤◌, ◌≡◌, ◌≢◌, refl, ap, ◌∙◌, ◌⊎◌, inl, inr, pos, Bool, Bool-cases, true, false, some,
  List, [], ◌∷◌, map, length, ok, err, out_of_fuel, value_error, raise_if, ltb_ℤ, Result, All,
  arith,
}
use nucypher_kms_umbral.Prelude.Residue.{Residue, zero_r}
use nucypher_kms_umbral.Backend.Interface.{Backend}
use nucypher_kms_umbral.Backend.Laws.{BignumLaws, CurveLaws, EncodingLaws, RandomLaws, EcdsaLaws}
use nucypher_kms_umbral.Backend.Random.{Random, repeat, repeat-All, run_bind, run_lift, ◌>>=◌}
use nucypher_kms_umbral.Openssl.Secp256k1.{secp256k1, scalar_modulus}
use nucypher_kms_umbral.CurvePoint.Arithmetic.{pt, smul}
use nucypher_kms_umbral.Keys.Pairs.{public_of, key_of}
use nucypher_kms_umbral.Hashing.ToPoint.{Parameters}
use nucypher_kms_umbral.Capsule.Reencrypted.{quotient}
use nucypher_kms_umbral.KeyFrag.Id.{id_size}
use nucypher_kms_umbral.KeyFrag.Defs.{KeyFrag, VerifiedKeyFrag, verify}
use nucypher_kms_umbral.KeyFrag.Generate.{KeyFragBase, key_frag_base, kfrag_from_base}
use nucypher_kms_umbral.KeyFrag.Accepted.{Made, length-Made, kfrag_from_base-Made}
use nucypher_kms_umbral.KeyFrag.Drawn.{
  IsSecret, StopsWithin, BaseMade, base_of, draw-StopsWithin, draw_lem, base-Drawn,
  base-out_of_fuel,
}
use nucypher_kms_umbral.Pre.Defs.{generate_kfrags}

module _ ⦃lib : Backend⦄ ⦃bignum : BignumLaws⦄ ⦃curve : CurveLaws⦄ ⦃encoding : EncodingLaws⦄
    ⦃random : RandomLaws⦄ ⦃ecdsa : EcdsaLaws⦄ ⦃params : Parameters⦄ where
  open curve use {generator as g}

  -- The fragment carries a share of the key of `a` for the delegate `b`, signed by `s`.
  abbrev pub IsShare :
      Residue
      → Residue
      → Residue
      → Residue
      → Residue
      → List Residue
      → Bool
      → Bool
      → KeyFrag
      → Type 0
  IsShare a b s t d coeffs sign_delegating_key sign_receiving_key =
      Made s (quotient a d) coeffs (pt (smul t g)) (pt (smul b (smul t g))) (public_of a)
        (public_of b) sign_delegating_key sign_receiving_key

  -- The id of a share is drawn, so it has its size.
  pub length-IsShare :
      (a b s t d : Residue) (coeffs : List Residue) (sign_delegating_key sign_receiving_key : Bool)
      (kfrag : KeyFrag)
      (share : IsShare a b s t d coeffs sign_delegating_key sign_receiving_key kfrag)
      → length share.id.id ≡ id_size
  length-IsShare a b s t d coeffs sign_delegating_key sign_receiving_key =
      length-Made s (quotient a d) coeffs (pt (smul t g)) (pt (smul b (smul t g))) (public_of a)
        (public_of b) sign_delegating_key sign_receiving_key

  abbrev pub as_verified : KeyFrag → VerifiedKeyFrag
  as_verified kfrag = record { kfrag = kfrag }

  module _ (a b s : Residue) (n m fuel : ℕ) (sign_delegating_key sign_receiving_key : Bool)
      (signs : s ≢ zero_r) where
    -- `generate_kfrags` for the keys of `a` and `b`, the signer `s`, a threshold of `n + 1` and `m`
    -- fragments.
    abbrev pub generated : Random (List VerifiedKeyFrag)
    generated =
        generate_kfrags fuel (key_of a) (public_of b) (record { secret_key = key_of s })
          (pos (suc n)) (pos m) sign_delegating_key sign_receiving_key

    abbrev pub Generated : List VerifiedKeyFrag → Type 0
    Generated vkfrags =
        (t : Residue) × (d : Residue) × (coeffs : List Residue) × (kfrags : List KeyFrag) × (vkfrags
          ≡ map as_verified kfrags)
        × IsSecret b t d
        × (d ≢ zero_r)
        × (length coeffs ≡ n)
        × (length kfrags ≡ m)
        × All (IsShare a b s t d coeffs sign_delegating_key sign_receiving_key) kfrags

    abbrev Makes : lib.Rng → Type 0
    Makes rng =
        (vkfrags : List VerifiedKeyFrag) × (rng' : lib.Rng) × (generated rng ≡ ok (vkfrags, rng'))
        × Generated vkfrags

    enough_or_refused : (suc n ≤ m) ⊎ (ltb_ℤ (pos m) (pos (suc n)) ≡ true)
    enough_or_refused = elim (Bool-cases (ltb_ℤ (pos m) (pos (suc n)))) [
      | inl e ↦ inr e
      | inr e ↦ inl (ground arith)
    ]

    abbrev useless : Result (Unit {0})
    useless =
        raise_if (ltb_ℤ (pos m) (pos (suc n)))
          (value_error "Creating less kfrags than threshold makes them useless")

    count-ok : suc n ≤ m → useless ≡ ok tt
    count-ok h = let e : ltb_ℤ (pos m) (pos (suc n)) ≡ false = ground arith in rw e refl

    generate-BaseMade : (rng : lib.Rng) → suc n ≤ m → BaseMade a b s n fuel rng → Makes rng
    unfolding generate_kfrags
    generate-BaseMade rng h (t, d, coeffs, rng₁, run, secret, nonzero, size) =
        let base : KeyFragBase = base_of a b s t d coeffs in
        let (kfrags, rng₂, made, count, shares) =
          repeat-All (IsShare a b s t d coeffs sign_delegating_key sign_receiving_key)
            (kfrag_from_base base sign_delegating_key sign_receiving_key)
            (kfrag_from_base-Made s (quotient a d) coeffs (pt (smul t g)) (pt (smul b (smul t g)))
              (public_of a) (public_of b) sign_delegating_key sign_receiving_key signs)
            m rng₁ in
        (
          map as_verified kfrags,
          rng₂,
          run_bind
                (key_frag_base fuel (key_of a) (public_of b) (record { secret_key = key_of s })
                  (pos (suc n)))
                _ run
              ∙ run_lift _ (count-ok h)
              ∙ run_bind (repeat m (kfrag_from_base base sign_delegating_key sign_receiving_key)) _
                  made,
          (t, d, coeffs, kfrags, refl, secret, nonzero, size, count, shares),
        )

    generate-refused :
        (rng : lib.Rng)
        → ltb_ℤ (pos m) (pos (suc n)) ≡ true
        → BaseMade a b s n fuel rng
        → generated rng ≡ err (value_error "Creating less kfrags than threshold makes them useless")
    unfolding generate_kfrags
    generate-refused rng h (t, d, coeffs, rng₁, run, secret, nonzero, size) =
        run_bind
          (key_frag_base fuel (key_of a) (public_of b) (record { secret_key = key_of s })
            (pos (suc n)))
          _ run
        ∙ rw h refl

    generate-out_of_fuel :
        (rng : lib.Rng)
        → key_frag_base fuel
            (key_of a)
            (public_of b)
            (record { secret_key = key_of s })
            (pos (suc n))
            rng
          ≡ out_of_fuel
        → generated rng ≡ out_of_fuel
    unfolding generate_kfrags
    generate-out_of_fuel rng e = rw (e, ◌>>=◌)

    -- If a round that the fuel allows draws a secret with a hash other than zero, the signer's key
    -- is not zero and at least as many fragments are asked for as the threshold, `generate_kfrags`
    -- returns as many fragments as are asked for, and `verify` accepts every one with both keys.
    pub generate_kfrags-StopsWithin :
        (rng : lib.Rng)
        → StopsWithin fuel b rng
        → suc n ≤ m
        → (vkfrags : List VerifiedKeyFrag) × (rng' : lib.Rng) × (generate_kfrags fuel
              (key_of a)
              (public_of b)
              (record { secret_key = key_of s })
              (pos (suc n))
              (pos m)
              sign_delegating_key
              sign_receiving_key
              rng
            ≡ ok (vkfrags, rng'))
          × (length vkfrags ≡ m)
          × All
              (λ (vkfrag : VerifiedKeyFrag).
                verify vkfrag.kfrag (public_of s) (some (public_of a)) (some (public_of b))
                ≡ ok vkfrag)
              vkfrags
    generate_kfrags-StopsWithin rng stops h =
        let (vkfrags, rng', run, (_, _, _, kfrags, same, _, _, _, count, shares)) =
          generate-BaseMade rng h
            (base-Drawn a b s n fuel rng (draw-StopsWithin fuel b rng stops)) in
        (
          map as_verified kfrags,
          rng',
          run ∙ ap (λ t. ok (t, rng')) same,
          length-map_verified kfrags ∙ count,
          all_accepted _ _ _ kfrags shares,
        )
      where
        length-map_verified : (l : List KeyFrag) → length (map as_verified l) ≡ length l
        length-map_verified [] = refl
        length-map_verified (k ∷ l) = ap suc (length-map_verified l)

        all_accepted :
            (t d : Residue) (coeffs : List Residue) (l : List KeyFrag)
            → All (IsShare a b s t d coeffs sign_delegating_key sign_receiving_key) l
            → All
                (λ (vkfrag : VerifiedKeyFrag).
                  verify vkfrag.kfrag (public_of s) (some (public_of a)) (some (public_of b))
                  ≡ ok vkfrag)
                (map as_verified l)
        all_accepted t d coeffs [] h = tt
        all_accepted t d coeffs (k ∷ l) (share, h) = (share.accepted, all_accepted t d coeffs l h)

    -- What `generate_kfrags` returns, if it returns.
    pub generate-Generated :
        (rng : lib.Rng) {rng' : lib.Rng} {vkfrags : List VerifiedKeyFrag}
        → generated rng ≡ ok (vkfrags, rng')
        → Generated vkfrags
    generate-Generated rng {rng'} {vkfrags} returned = elim (draw_lem fuel b rng) [
      | inl ran_out ↦
          absurd
            (cc (generate-out_of_fuel rng (base-out_of_fuel a b s n fuel rng ran_out), returned))
      | inr drawn ↦
          let base = base-Drawn a b s n fuel rng drawn in
          elim enough_or_refused [
            | inr e ↦ absurd (cc (generate-refused rng e base, returned))
            | inl h ↦ same_list (generate-BaseMade rng h base)
          ]
    ]
      where
        same_list : Makes rng → Generated vkfrags
        same_list
              (l, rng'', run, (t, d, coeffs, kfrags, same, secret, nonzero, size, count, shares)) =
            (t, d, coeffs, kfrags, cc (run, returned, same), secret, nonzero, size, count, shares)
