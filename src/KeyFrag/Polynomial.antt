-- ===== src/KeyFrag/Polynomial.antt =====
-- `poly_eval` is the value of the polynomial with the given coefficients, constant first.
use nucypher_kms_umbral.Prelude.{◌≡◌, ◌≢◌, refl, sym, ap, ◌∙◌, List, [], ◌∷◌, map, ok}
use nucypher_kms_umbral.Prelude.Residue.{Residue, ◌⊕◌, ◌⊗◌, zero_r, ⊕_comm, ⊗_comm, zero-⊕, zero-⊗}
use nucypher_kms_umbral.Backend.Interface.{Backend}
use nucypher_kms_umbral.Backend.Laws.{BignumLaws, CurveLaws}
use nucypher_kms_umbral.Openssl.Secp256k1.{secp256k1, scalar_modulus}
use nucypher_kms_umbral.CurveScalar.Arithmetic.{scalar, mul-scalar, add-scalar}
use nucypher_kms_umbral.Scheme.Lagrange.{poly_value}
use nucypher_kms_umbral.KeyFrag.Generate.{poly_eval, poly_eval_loop, poly_eval_reversed}
use mathlib.Core.List.{reverse, reverse_aux, reverse-reverse}

module _ ⦃lib : Backend⦄ ⦃bignum : BignumLaws⦄ ⦃curve : CurveLaws⦄ where
  -- The coefficients above the first ones only see the value of those.
  poly_value-reverse_aux :
      (cs r r' : List Residue) (x : Residue)
      → poly_value r x ≡ poly_value r' x
      → poly_value (reverse_aux cs r) x ≡ poly_value (reverse_aux cs r') x
  unfolding poly_value
  poly_value-reverse_aux [] r r' x e = e
  poly_value-reverse_aux (c ∷ cs) r r' x e =
      poly_value-reverse_aux cs (c ∷ r) (c ∷ r') x (ap (λ t. c ⊕ x ⊗ t) e)

  ⊕-⊗-zero : (a x : Residue) → a ⊕ x ⊗ zero_r ≡ a
  ⊕-⊗-zero a x = ap (◌⊕◌ a) (⊗_comm x zero_r ∙ zero-⊗ x) ∙ ⊕_comm a zero_r ∙ zero-⊕ a

  poly_value_one : (d x : Residue) → poly_value (d ∷ []) x ≡ d
  unfolding poly_value
  poly_value_one d x = ⊕-⊗-zero d x

  -- One step of Horner's rule.
  horner_step : (c d x : Residue) → poly_value ((d ⊗ x ⊕ c) ∷ []) x ≡ poly_value (c ∷ d ∷ []) x
  unfolding poly_value
  horner_step c d x =
      ⊕-⊗-zero (d ⊗ x ⊕ c) x
      ∙ ⊕_comm (d ⊗ x) c
      ∙ ap (◌⊕◌ c) (⊗_comm d x ∙ ap (◌⊗◌ x) (sym (⊕-⊗-zero d x)))

  poly_eval_loop-scalar :
      (cs : List Residue) (d x : Residue)
      → poly_eval_loop (map scalar cs) (scalar d) (scalar x)
        ≡ ok (scalar (poly_value (reverse_aux cs (d ∷ [])) x))
  unfolding poly_eval_loop
  poly_eval_loop-scalar [] d x = ap (λ t. ok (scalar t)) (sym (poly_value_one d x))
  poly_eval_loop-scalar (c ∷ cs) d x =
      rw (mul-scalar d x, add-scalar)
        (poly_eval_loop-scalar cs (d ⊗ x ⊕ c) x
          ∙ ap (λ t. ok (scalar t)) (poly_value-reverse_aux cs _ _ x (horner_step c d x)))

  poly_eval_reversed-scalar :
      (rs : List Residue) (x : Residue)
      → rs ≢ []
      → poly_eval_reversed (map scalar rs) (scalar x) ≡ ok (scalar (poly_value (reverse rs) x))
  unfolding poly_eval_reversed
  poly_eval_reversed-scalar [] x h = absurd (h refl)
  poly_eval_reversed-scalar (d ∷ rs) x h = poly_eval_loop-scalar rs d x

  map-reverse_aux :
      (cs r : List Residue)
      → reverse_aux (map scalar cs) (map scalar r) ≡ map scalar (reverse_aux cs r)
  map-reverse_aux [] r = refl
  map-reverse_aux (c ∷ cs) r = map-reverse_aux cs (c ∷ r)

  reverse_ne : (cs : List Residue) → cs ≢ [] → reverse cs ≢ []
  reverse_ne cs h e = h (sym (reverse-reverse cs) ∙ ap reverse e)

  -- `poly_eval` of scalars is the value of the polynomial, for at least one coefficient.
  pub poly_eval-scalar :
      (cs : List Residue) (x : Residue)
      → cs ≢ []
      → poly_eval (map scalar cs) (scalar x) ≡ ok (scalar (poly_value cs x))
  unfolding poly_eval
  poly_eval-scalar cs x h =
      ap (λ rs. poly_eval_reversed rs (scalar x)) (map-reverse_aux cs [])
      ∙ poly_eval_reversed-scalar (reverse cs) x (reverse_ne cs h)
      ∙ ap (λ t. ok (scalar (poly_value t x))) (reverse-reverse cs)
