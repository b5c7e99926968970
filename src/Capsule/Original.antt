-- ===== src/Capsule/Original.antt =====
-- A capsule as `from_public_key` makes it: it verifies, and the owner of the key opens it.
use nucypher_kms_umbral.Prelude.{◌≡◌, sym, ap, ◌∙◌, true, ok}
use nucypher_kms_umbral.Prelude.Residue.{Residue, ◌⊕◌, ◌⊗◌, ⊗_comm}
use nucypher_kms_umbral.Backend.Interface.{Backend}
use nucypher_kms_umbral.Backend.Laws.{BignumLaws, CurveLaws, EncodingLaws, RandomLaws}
use nucypher_kms_umbral.Backend.Random.{run_bind, run_lift}
use nucypher_kms_umbral.CurveScalar.Defs.{random_nonzero}
use nucypher_kms_umbral.Openssl.Secp256k1.{secp256k1, scalar_modulus}
use nucypher_kms_umbral.CurveScalar.Arithmetic.{scalar, random_nonzero_lem, mul-scalar, add-scalar}
use nucypher_kms_umbral.CurvePoint.Defs.{CurvePoint, generator}
use nucypher_kms_umbral.CurvePoint.Arithmetic.{pt, smul, mul-pt, add-pt, eq-pt_same, smul-⊕, smul-⊗}
use nucypher_kms_umbral.Hashing.Defs.{hash_capsule_points}
use nucypher_kms_umbral.Hashing.Total.{hash_capsule_points-scalar}
use nucypher_kms_umbral.Keys.Pairs.{public_of, key_of}
use nucypher_kms_umbral.Capsule.Defs.{Capsule, from_public_key, encapsulate, verify, open_original}

module _ ⦃lib : Backend⦄ ⦃bignum : BignumLaws⦄ ⦃curve : CurveLaws⦄ ⦃encoding : EncodingLaws⦄ where
  open curve use {plus, generator as g}

  -- The capsule for the scalars `r` and `u`, and the hash `h` of its points.
  abbrev pub capsule_of : Residue → Residue → Residue → Capsule
  capsule_of r u h = record {
    point_e = pt (smul r g);
    point_v = pt (smul u g);
    signature = scalar (u ⊕ r ⊗ h);
  }

  abbrev pub IsCapsuleHash : Residue → Residue → Residue → Type 0
  IsCapsuleHash r u h = hash_capsule_points (pt (smul r g)) (pt (smul u g)) ≡ ok (scalar h)

  pub smul_comm : (a c : Residue) (p : lib.Point) → smul a (smul c p) ≡ smul c (smul a p)
  smul_comm a c p = sym (smul-⊗ a c p) ∙ ap (λ t. smul t p) (⊗_comm a c) ∙ smul-⊗ c a p

  -- The key that is encapsulated under the public key of `a`.
  abbrev pub shared_key : Residue → Residue → Residue → CurvePoint
  shared_key a r u = pt (smul a (plus (smul r g) (smul u g)))

  shared_point : (a r u : Residue) → smul (r ⊕ u) (smul a g) ≡ smul a (plus (smul r g) (smul u g))
  shared_point a r u = smul_comm (r ⊕ u) a g ∙ ap (smul a) (smul-⊕ r u g)

  encapsulate-ok :
      (a r u h : Residue)
      → IsCapsuleHash r u h
      → encapsulate (public_of a) (scalar r) (pt (smul r g)) (scalar u) (pt (smul u g))
        ≡ ok (capsule_of r u h, shared_key a r u)
  unfolding encapsulate
  encapsulate-ok a r u h hashed =
      rw (hashed, mul-scalar, add-scalar, add-scalar, mul-pt, shared_point a r u)

  from_public_key_run :
      (a r u h : Residue) (rng rng₁ rng₂ : lib.Rng)
      → random_nonzero rng ≡ ok (scalar r, rng₁)
      → random_nonzero rng₁ ≡ ok (scalar u, rng₂)
      → IsCapsuleHash r u h
      → from_public_key (public_of a) rng ≡ ok ((capsule_of r u h, shared_key a r u), rng₂)
  unfolding from_public_key generator
  from_public_key_run a r u h rng rng₁ rng₂ drawn_r drawn_u hashed =
      run_bind random_nonzero _ drawn_r
      ∙ run_lift _ (mul-pt g r)
      ∙ run_bind random_nonzero _ drawn_u
      ∙ run_lift _ (mul-pt g u)
      ∙ rw (encapsulate-ok a r u h hashed)

  -- What a capsule is made of, whatever is drawn.
  pub from_public_key-capsule :
      ⦃random : RandomLaws⦄ (a : Residue) (rng : lib.Rng)
      → (r : Residue) × (u : Residue) × (h : Residue) × (rng' : lib.Rng) × (from_public_key
            (public_of a)
            rng
          ≡ ok ((capsule_of r u h, shared_key a r u), rng'))
        × IsCapsuleHash r u h
  from_public_key-capsule a rng =
      let (r, rng₁, drawn_r, _) = random_nonzero_lem rng in
      let (u, rng₂, drawn_u, _) = random_nonzero_lem rng₁ in
      let (h, hashed) = hash_capsule_points-scalar (pt (smul r g)) (pt (smul u g)) in
      (r, u, h, rng₂, from_public_key_run a r u h rng rng₁ rng₂ drawn_r drawn_u hashed, hashed)

  -- The signature equation of a capsule.
  signature_point : (r u h : Residue) → smul (u ⊕ r ⊗ h) g ≡ plus (smul u g) (smul h (smul r g))
  signature_point r u h =
      smul-⊕ u (r ⊗ h) g ∙ ap (plus (smul u g)) (ap (λ t. smul t g) (⊗_comm r h) ∙ smul-⊗ h r g)

  pub verify-capsule_of :
      (r u h : Residue) → IsCapsuleHash r u h → verify (capsule_of r u h) ≡ ok true
  unfolding verify generator
  verify-capsule_of r u h hashed =
      rw (hashed, mul-pt, mul-pt, add-pt, signature_point r u h) (eq-pt_same _)

  pub open_original-capsule_of :
      (a r u h : Residue) → open_original (capsule_of r u h) (key_of a) ≡ ok (shared_key a r u)
  unfolding open_original
  open_original-capsule_of a r u h = rw (add-pt, mul-pt)

  -- `from_public_key` gives a capsule that verifies, and the owner's key opens it to the key that
  -- was encapsulated.
  pub open_original-from_public_key :
      ⦃random : RandomLaws⦄ (a : Residue) (rng : lib.Rng)
      → (capsule : Capsule) × (key : CurvePoint) × (rng' : lib.Rng) × (from_public_key
            (public_of a)
            rng
          ≡ ok ((capsule, key), rng'))
        × (verify capsule ≡ ok true)
        × (open_original capsule (key_of a) ≡ ok key)
  open_original-from_public_key a rng =
      let (r, u, h, rng', made, hashed) = from_public_key-capsule a rng in
      (
        capsule_of r u h,
        shared_key a r u,
        rng',
        made,
        verify-capsule_of r u h hashed,
        open_original-capsule_of a r u h,
      )
