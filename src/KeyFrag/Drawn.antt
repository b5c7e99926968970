-- ===== src/KeyFrag/Drawn.antt =====
-- The loop of `KeyFragBase.__init__` and the base that it gives.
use nucypher_kms_umbral.Prelude.{
  ℕ, zero, suc, ◌-◌, ◌≡◌, ◌≢◌, refl, ◌∙◌, ◌⊎◌, inl, inr, pos, Bool, true, false, List, [], ◌∷◌, map,
  length, ok, out_of_fuel, arith, raise_if, ltb_ℤ, not, value_error,
}
use nucypher_kms_umbral.Prelude.Residue.{Residue, zero_r, residue-dec}
use nucypher_kms_umbral.Backend.Interface.{Backend}
use nucypher_kms_umbral.Backend.Laws.{BignumLaws, CurveLaws, EncodingLaws, RandomLaws}
use nucypher_kms_umbral.Backend.Random.{repeat, run_bind, run_lift, return, ◌>>=◌}
use nucypher_kms_umbral.Openssl.Secp256k1.{secp256k1, scalar_modulus}
use nucypher_kms_umbral.CurveScalar.Defs.{random_nonzero, is_zero}
use nucypher_kms_umbral.CurveScalar.Arithmetic.{
  scalar, random_nonzero_lem, is_zero-scalar, invert-scalar, mul-scalar,
}
use nucypher_kms_umbral.CurvePoint.Defs.{generator}
use nucypher_kms_umbral.CurvePoint.Arithmetic.{pt, smul, mul-pt}
use nucypher_kms_umbral.Hashing.Defs.{hash_to_shared_secret}
use nucypher_kms_umbral.Hashing.Total.{hash_to_shared_secret-scalar}
use nucypher_kms_umbral.Keys.Pairs.{public_of, key_of}
use nucypher_kms_umbral.Capsule.Original.{smul_comm}
use nucypher_kms_umbral.Capsule.Reencrypted.{quotient}
use nucypher_kms_umbral.KeyFrag.Generate.{
  KeyFragBase, Ephemeral, ephemeral, try_ephemeral, draw_ephemeral, constant_coefficient,
  base_with_threshold, key_frag_base,
}

module _ ⦃lib : Backend⦄ ⦃bignum : BignumLaws⦄ ⦃curve : CurveLaws⦄ ⦃encoding : EncodingLaws⦄ where
  open curve use {generator as g}

  -- `d` is the hash of the secret between the precursor of the scalar `t` and the delegate `b`.
  abbrev pub IsSecret : Residue → Residue → Residue → Type 0
  IsSecret b t d =
      hash_to_shared_secret (pt (smul t g)) (pt (smul b g)) (pt (smul t (smul b g))) ≡ ok (scalar d)

  -- One of the first rounds draws a scalar whose secret has a hash other than zero.
  abbrev pub StopsWithin : ℕ → Residue → lib.Rng → Type 0
  StopsWithin zero b rng = ⊥
  StopsWithin (suc rounds) b rng =
      (t : Residue) × (d : Residue) × (rng' : lib.Rng) × (random_nonzero rng ≡ ok (scalar t, rng'))
      × IsSecret b t d
      × ((d ≢ zero_r) ⊎ StopsWithin rounds b rng')

  -- What a round computes from the scalar `t`.
  abbrev pub values_of : Residue → Residue → Residue → Ephemeral
  values_of b t d = record {
    precursor = pt (smul t g);
    dh_point = pt (smul b (smul t g));
    d = scalar d;
  }

  module _ (b t d : Residue) (rng rng' : lib.Rng) (drawn : random_nonzero rng ≡ ok (scalar t, rng'))
      (secret : IsSecret b t d) where
    ephemeral-ok : ephemeral (pt (smul b g)) (scalar t) ≡ ok (values_of b t d)
    unfolding ephemeral generator
    ephemeral-ok = rw (mul-pt g t, mul-pt (smul b g) t, secret, smul_comm t b g) refl

    try_run :
        (flag : Bool)
        → is_zero (scalar d) ≡ ok flag
        → try_ephemeral (pt (smul b g)) rng ≡ ok ((values_of b t d, flag), rng')
    unfolding try_ephemeral
    try_run flag e =
        run_bind random_nonzero _ drawn
        ∙ run_lift _ ephemeral-ok
        ∙ run_lift {m = is_zero (scalar d)} (λ zero. return (values_of b t d, zero)) e

    -- A round whose hash is zero is followed by another.
    draw_again :
        (fuel : ℕ)
        → d ≡ zero_r
        → draw_ephemeral (suc fuel) (pt (smul b g)) rng ≡ draw_ephemeral fuel (pt (smul b g)) rng'
    unfolding draw_ephemeral
    draw_again fuel e = rw (draw_ephemeral, try_run true ((is_zero-scalar d).0 e)) refl

    draw_stop :
        (fuel : ℕ)
        → d ≢ zero_r
        → draw_ephemeral (suc fuel) (pt (smul b g)) rng ≡ ok (values_of b t d, rng')
    unfolding draw_ephemeral
    draw_stop fuel h = rw (draw_ephemeral, try_run false ((is_zero-scalar d).1 h)) refl

  -- The loop ended with the values of a scalar `t` whose hash `d` is not zero.
  abbrev pub Drawn : ℕ → Residue → lib.Rng → Type 0
  Drawn fuel b rng =
      (t : Residue) × (d : Residue) × (rng' : lib.Rng) × (draw_ephemeral fuel (pt (smul b g)) rng
        ≡ ok (values_of b t d, rng'))
      × IsSecret b t d
      × (d ≢ zero_r)

  again :
      (fuel : ℕ) (b : Residue) (rng rng' : lib.Rng)
      → draw_ephemeral (suc fuel) (pt (smul b g)) rng ≡ draw_ephemeral fuel (pt (smul b g)) rng'
      → Drawn fuel b rng'
      → Drawn (suc fuel) b rng
  again fuel b rng rng' e (t, d, rng'', run, secret, nonzero) =
      (t, d, rng'', e ∙ run, secret, nonzero)

  -- The loop ends if one of the rounds that the fuel allows has a hash other than zero.
  pub draw-StopsWithin :
      (fuel : ℕ) (b : Residue) (rng : lib.Rng) → StopsWithin fuel b rng → Drawn fuel b rng
  draw-StopsWithin zero b rng h = absurd h
  draw-StopsWithin (suc fuel) b rng (t, d, rng', drawn, secret, stops) =
      elim (residue-dec d zero_r) [
        | no h ↦ (t, d, rng', draw_stop b t d rng rng' drawn secret fuel h, secret, h)
        | yes e ↦ elim stops [
          | inl h ↦ absurd (h e)
          | inr later ↦
              again fuel b rng rng' (draw_again b t d rng rng' drawn secret fuel e)
                (draw-StopsWithin fuel b rng' later)
        ]
      ]

  -- Whatever is drawn, the loop ends only with a hash other than zero.
  pub draw_lem :
      ⦃random : RandomLaws⦄ (fuel : ℕ) (b : Residue) (rng : lib.Rng)
      → (draw_ephemeral fuel (pt (smul b g)) rng ≡ out_of_fuel) ⊎ Drawn fuel b rng
  unfolding draw_ephemeral
  draw_lem zero b rng = inl refl
  draw_lem (suc fuel) b rng =
      let (t, rng', drawn, _) = random_nonzero_lem rng in
      let (d, secret) =
        hash_to_shared_secret-scalar (pt (smul t g)) (pt (smul b g)) (pt (smul t (smul b g))) in
      elim (residue-dec d zero_r) [
        | no h ↦ inr (t, d, rng', draw_stop b t d rng rng' drawn secret fuel h, secret, h)
        | yes e ↦
            let next = draw_again b t d rng rng' drawn secret fuel e in
            elim (draw_lem fuel b rng') [
              | inl ran_out ↦ inl (next ∙ ran_out)
              | inr found ↦ inr (again fuel b rng rng' next found)
            ]
      ]

  constant_coefficient-scalar :
      (a d : Residue)
      → d ≢ zero_r
      → constant_coefficient (key_of a) (scalar d) ≡ ok (scalar (quotient a d))
  unfolding constant_coefficient
  constant_coefficient-scalar a d h = rw (invert-scalar d h, mul-scalar) refl

  random_coefficients :
      ⦃random : RandomLaws⦄ (count : ℕ) (rng : lib.Rng)
      → (coeffs : List Residue) × (rng' : lib.Rng) × (repeat count random_nonzero rng
          ≡ ok (map scalar coeffs, rng'))
        × (length coeffs ≡ count)
  unfolding repeat
  random_coefficients zero rng = ([], rng, refl, refl)
  random_coefficients (suc count) rng =
      let (c, rng₁, drawn, _) = random_nonzero_lem rng in
      let (coeffs, rng₂, more, size) = random_coefficients count rng₁ in
      (c ∷ coeffs, rng₂, rw (drawn, more, repeat), omega (arith, size))

  -- The base of the owner `a` and the delegate `b`, for the scalar `t` of the precursor, the hash
  -- `d` of their secret and the coefficients after the first.
  abbrev pub base_of : Residue → Residue → Residue → Residue → Residue → List Residue → KeyFragBase
  base_of a b s t d coeffs = record {
    signer = record { secret_key = key_of s };
    precursor = pt (smul t g);
    dh_point = pt (smul b (smul t g));
    delegating_pk = public_of a;
    receiving_pk = public_of b;
    coefficients = map scalar (quotient a d ∷ coeffs);
  }

  module _ (a b s : Residue) (n fuel : ℕ) where
    -- The base is made, with a polynomial of `n + 1` coefficients.
    abbrev pub BaseMade : lib.Rng → Type 0
    BaseMade rng =
        (t : Residue) × (d : Residue) × (coeffs : List Residue) × (rng' : lib.Rng) × (key_frag_base
            fuel (key_of a) (public_of b) (record { secret_key = key_of s }) (pos (suc n)) rng
          ≡ ok (base_of a b s t d coeffs, rng'))
        × IsSecret b t d
        × (d ≢ zero_r)
        × (length coeffs ≡ n)

    threshold-ok :
        raise_if
          (not (ltb_ℤ (pos 0) (pos (suc n))))
          (value_error "`threshold` must be larger than 0")
        ≡ ok tt
    threshold-ok =
        let positive : ltb_ℤ (pos 0) (pos (suc n)) ≡ true = ground arith in rw positive refl

    module _ ⦃random : RandomLaws⦄ (rng : lib.Rng) where
      pub base-Drawn : Drawn fuel b rng → BaseMade rng
      unfolding key_frag_base base_with_threshold
      base-Drawn (t, d, rng₁, run, secret, nonzero) =
          let (coeffs, rng₂, drawn, size) = random_coefficients (suc n - 1) rng₁ in
          (
            t,
            d,
            coeffs,
            rng₂,
            run_lift _ threshold-ok
                ∙ run_bind (draw_ephemeral fuel (pt (smul b g))) _ run
                ∙ run_lift _ (constant_coefficient-scalar a d nonzero)
                ∙ run_bind (repeat (suc n - 1) random_nonzero) _ drawn,
            secret,
            nonzero,
            omega (arith, size),
          )

      pub base-out_of_fuel :
          draw_ephemeral fuel (pt (smul b g)) rng ≡ out_of_fuel
          → key_frag_base fuel
              (key_of a)
              (public_of b)
              (record { secret_key = key_of s })
              (pos (suc n))
              rng
            ≡ out_of_fuel
      unfolding key_frag_base base_with_threshold
      base-out_of_fuel e = run_lift _ threshold-ok ∙ rw (base_with_threshold, e, ◌>>=◌)
