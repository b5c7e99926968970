-- ===== src/CurveScalar/Arithmetic.antt =====
-- Scalars are residues modulo the order: the operations of `CurveScalar` on the scalars of
-- residues are those of the ring, and never fail but for the inverse of zero.
use nucypher_kms_umbral.Prelude.{
  ◌⊎◌, inl, inr, ℕ, pos, ◌+◌, ◌-◌, ◌*◌, ◌%◌, ◌<◌, ◌≡◌, ◌≢◌, refl, sym, ap, ◌∙◌, true, false, some,
  ok, err, arith, internal_error, cmp_ℤ, ◌-ℤ◌, ◌==ℤ◌, ◌↔◌,
}
use nucypher_kms_umbral.Prelude.Bytes.{be_value}
use nucypher_kms_umbral.Prelude.Residue.{
  Residue, residue, residue_eq, residue_congr, residue_self, ◌⊕◌, ◌⊗◌, zero_r, one_r, residue-dec,
  residue-⊕,
}
use nucypher_kms_umbral.Backend.Interface.{Backend}
use nucypher_kms_umbral.Backend.Random.{◌>>=◌}
use nucypher_kms_umbral.Backend.Laws.{BignumLaws, CurveLaws, RandomLaws}
use nucypher_kms_umbral.Openssl.Bignum.{bn_from_int}
use nucypher_kms_umbral.Openssl.Secp256k1.{secp256k1, scalar_modulus}
use nucypher_kms_umbral.Hash.{Hash, finalize}
use nucypher_kms_umbral.CurveScalar.Defs.{
  CurveScalar, mul, add, sub, invert, one, eq, is_zero, from_digest, random_nonzero,
}
use native.Mathlib.Nat.{mod-eq_of_lt, mul_comm, add-mod_right, zero-mul}

module _ ⦃lib : Backend⦄ ⦃bignum : BignumLaws⦄ ⦃curve : CurveLaws⦄ where
  -- The scalar of a residue.
  abbrev pub scalar : Residue → CurveScalar
  scalar a = record { backend_bignum = lib.bn_of (pos a.0) }

  pub mul-scalar : (a c : Residue) → mul (scalar a) (scalar c) ≡ ok (scalar (a ⊗ c))
  unfolding mul ◌⊗◌ residue
  mul-scalar a c = rw (bignum.mod_mul a.0 c.0 curve.order scalar_modulus.positive)

  pub add-scalar : (a c : Residue) → add (scalar a) (scalar c) ≡ ok (scalar (a ⊕ c))
  unfolding add ◌⊕◌ residue
  add-scalar a c = rw (bignum.mod_add a.0 c.0 curve.order scalar_modulus.positive)

  pub minus : Residue → Residue → Residue
  minus a c = residue (a.0 + (curve.order - c.0))

  pub sub-scalar : (a c : Residue) → sub (scalar a) (scalar c) ≡ ok (scalar (minus a c))
  unfolding sub minus residue
  sub-scalar a c = rw (bignum.mod_sub a.0 c.0 curve.order scalar_modulus.positive, mod-eq_of_lt c.1)

  pub minus-⊕ : (a c : Residue) → minus a c ⊕ c ≡ a
  unfolding minus ◌⊕◌
  minus-⊕ a c =
      ap (λ (t : Residue). residue (a.0 + (curve.order - c.0)) ⊕ t) (sym (residue_self c))
      ∙ residue-⊕ (a.0 + (curve.order - c.0)) c.0
      ∙ residue_congr _ a.0 whole
      ∙ residue_self a
    where
      sum : a.0 + (curve.order - c.0) + c.0 ≡ a.0 + curve.order
      sum = let lt : c.0 < curve.order = c.1 in omega arith

      whole : (a.0 + (curve.order - c.0) + c.0) % curve.order ≡ a.0 % curve.order
      whole = rw sum (add-mod_right a.0 curve.order)

  pub one-scalar : one ≡ scalar one_r
  unfolding one one_r residue
  one-scalar = rw (mod-eq_of_lt one_lt)
    where
      one_lt : 1 < curve.order
      one_lt = omega (arith, curve.order_large)

  residue_ne : (a : Residue) → a ≢ zero_r → a.0 % curve.order ≢ 0
  unfolding zero_r residue
  residue_ne a h e = h (
      residue_eq a (residue 0)
        (sym (mod-eq_of_lt a.1) ∙ e ∙ sym (mod-eq_of_lt scalar_modulus.positive)))

  one_mod : 1 % curve.order ≡ 1
  one_mod = mod-eq_of_lt one_lt
    where
      one_lt : 1 < curve.order
      one_lt = omega (arith, curve.order_large)

  invertible : (a : Residue) → a ≢ zero_r → (c : ℕ) × (a.0 * c % curve.order ≡ 1 % curve.order)
  invertible a h = let (c, e) = curve.order_prime a.0 (residue_ne a h) in (c, e ∙ sym one_mod)

  -- The inverse that OpenSSL finds, with the proof that it does.
  abbrev Inverse : (a : Residue) → Type 0
  Inverse a = (i : Residue) × (invert (scalar a) ≡ ok (scalar i)) × (i ⊗ a ≡ one_r)

  invert_run : (a : Residue) → a ≢ zero_r → Inverse a
  unfolding invert one_r
  invert_run a h =
      let (c, e) = invertible a h in
      let (i, found, bound, law) = bignum.mod_inverse a.0 c curve.order scalar_modulus.positive e in
      ((i, bound), rw found, product i bound law)
    where
      product :
          (i : ℕ) (bound : i < curve.order)
          → a.0 * i % curve.order ≡ 1 % curve.order
          → (i, bound) ⊗ a ≡ residue 1
      product i bound law =
          unfold ◌⊗◌ in residue_congr _ 1 (ap (λ (t : ℕ). t % curve.order) (mul_comm i a.0) ∙ law)

  -- Zero has no inverse, and stands for itself here.
  choose_inverse : (a : Residue) → Dec (a ≡ zero_r) → Residue
  choose_inverse a (yes e) = zero_r
  choose_inverse a (no h) = (invert_run a h).0

  pub inverse_r : Residue → Residue
  inverse_r a = choose_inverse a (residue-dec a zero_r)

  inverse_by :
      (a : Residue) (d : Dec (a ≡ zero_r))
      → a ≢ zero_r
      → (invert (scalar a) ≡ ok (scalar (choose_inverse a d))) × (choose_inverse a d ⊗ a ≡ one_r)
  unfolding choose_inverse
  inverse_by a (yes e) h = absurd (h e)
  inverse_by a (no g) h = ((invert_run a g).1, (invert_run a g).2)

  -- `invert` succeeds on every scalar but zero.
  pub invert-scalar : (a : Residue) → a ≢ zero_r → invert (scalar a) ≡ ok (scalar (inverse_r a))
  unfolding inverse_r
  invert-scalar a h = (inverse_by a (residue-dec a zero_r) h).0

  pub inverse_r-⊗ : (a : Residue) → a ≢ zero_r → inverse_r a ⊗ a ≡ one_r
  unfolding inverse_r
  inverse_r-⊗ a h = (inverse_by a (residue-dec a zero_r) h).1

  zero_ne_one : (c : ℕ) → zero_r.0 * c % curve.order ≢ 1 % curve.order
  unfolding zero_r residue
  zero_ne_one c e = absurd (omega (arith, product, one_mod, e))
    where
      product : 0 % curve.order * c % curve.order ≡ 0
      product =
          rw (mod-eq_of_lt scalar_modulus.positive, zero-mul c)
            (mod-eq_of_lt scalar_modulus.positive)

  -- `invert` of zero raises: OpenSSL returns NULL.
  pub invert-zero : invert (scalar zero_r) ≡ err internal_error
  unfolding invert
  invert-zero = rw (bignum.mod_inverse_none zero_r.0 curve.order zero_ne_one)

  -- `invert` gives the multiplicative inverse of every scalar but zero, and raises on zero, where
  -- OpenSSL returns NULL.
  pub invert_lem :
      (a : Residue)
      → ((i : Residue) × (invert (scalar a) ≡ ok (scalar i)) × (i ⊗ a ≡ one_r))
        ⊎ ((a ≡ zero_r) × (invert (scalar a) ≡ err internal_error))
  invert_lem a = elim (residue-dec a zero_r) [
    | yes e ↦ inr (e, ap (λ t. invert (scalar t)) e ∙ invert-zero)
    | no h ↦ inl (inverse_r a, invert-scalar a h, inverse_r-⊗ a h)
  ]

  scalar_inj : (a c : Residue) → eq (scalar a) (scalar c) ≡ true → a ≡ c
  unfolding eq
  scalar_inj a c e = residue_eq a c (same (rw bignum.cmp at e))
    where
      same : (cmp_ℤ (pos a.0) (pos c.0) ==ℤ pos 0) ≡ true → a.0 ≡ c.0
      same h = ground arith

  -- `==` between scalars tells residues apart.
  pub eq-scalar : (a c : Residue) → (eq (scalar a) (scalar c) ≡ true) ↔ (a ≡ c)
  eq-scalar a c = (scalar_inj a c, λ e. rw e (reflexive c))
    where
      reflexive : (c : Residue) → eq (scalar c) (scalar c) ≡ true
      reflexive c = unfold eq in rw bignum.cmp (ground arith)

  pub is_zero-scalar :
      (a : Residue)
      → (a ≡ zero_r → is_zero (scalar a) ≡ ok true) × (a ≢ zero_r → is_zero (scalar a) ≡ ok false)
  unfolding is_zero bn_from_int zero_r residue
  is_zero-scalar a = (
    λ e. rw (e, bignum.int_to_bn_pos 0, bignum.cmp, mod-eq_of_lt scalar_modulus.positive) (refl),
    λ h. rw (bignum.int_to_bn_pos 0, bignum.cmp) (ground (arith, residue_ne a h, mod-eq_of_lt a.1)),
  )

  pub digest_residue : Hash → Residue
  digest_residue digest = residue (be_value (finalize digest))

  -- `from_digest` reduces the digest, read as a number, modulo the order. It can give zero.
  pub from_digest_lem : (digest : Hash) → from_digest digest ≡ ok (scalar (digest_residue digest))
  unfolding from_digest digest_residue residue
  from_digest_lem digest = rw (bignum.bin2bn, bignum.reduce _ curve.order scalar_modulus.positive)

  one_less : pos curve.order -ℤ pos 1 ≡ pos (curve.order - 1)
  one_less = let large : 2 < curve.order = curve.order_large in ground arith

  one_more : (j : ℕ) (bound : j + 1 < curve.order) → (j + 1, bound) ≢ zero_r
  unfolding zero_r residue
  one_more j bound e =
      absurd (omega (arith, ap (λ (t : Residue). t.0) e, mod-eq_of_lt scalar_modulus.positive))

  drawn_nonzero :
      (j : ℕ) (rng rng' : lib.Rng)
      → lib.bn_rand_range (lib.bn_of (pos (curve.order - 1))) rng ≡ some (lib.bn_of (pos j), rng')
      → (bound : j + 1 < curve.order) → random_nonzero rng ≡ ok (scalar (j + 1, bound), rng')
  unfolding random_nonzero
  drawn_nonzero j rng rng' drawn bound = rw (bignum.sub, one_less, drawn, ◌>>=◌, bignum.add)

  -- `random_nonzero` gives a scalar other than zero, whatever is drawn.
  pub random_nonzero_lem :
      ⦃random : RandomLaws⦄ (rng : lib.Rng)
      → (a : Residue) × (rng' : lib.Rng) × (random_nonzero rng ≡ ok (scalar a, rng')) × (a ≢ zero_r)
  random_nonzero_lem ⦃random⦄ rng =
      let (j, rng', drawn, bound) = random.rand_range (curve.order - 1) rng at_least_two in
      let below : j + 1 < curve.order = omega arith in
      ((j + 1, below), rng', drawn_nonzero j rng rng' drawn below, one_more j below)
    where
      at_least_two : 0 < curve.order - 1
      at_least_two = omega (arith, curve.order_large)
