-- ===== src/Scheme/AtZero.antt =====
-- The reconstruction theorem: the combined values of a polynomial are its constant coefficient.
use nucypher_kms_umbral.Prelude.{
  ◌≤◌, ◌≡◌, ◌≢◌, sym, ap, ap₂, ◌∙◌, List, [], ◌∷◌, length, All, arith,
}
use nucypher_kms_umbral.Prelude.Residue.{
  Modulus, Residue, ◌⊕◌, ◌⊗◌, zero_r, one_r, ⊕_comm, ⊗_comm, zero-⊕, one-⊗, zero-⊗, ⊕_assoc,
  ⊗_assoc, ⊗-⊕, ⊕_cancel,
}
use nucypher_kms_umbral.Scheme.Lagrange.{
  poly_value, Distinct, IsInverse, weight, combine, combine-⊕, combine-⊗, combine_swap,
  combine_step,
}
use mathlib.Core.Path.{fun_ext}

module _ ⦃m : Modulus⦄ (inverse : Residue → Residue → Residue) (lawful : IsInverse inverse) where
  ⊗-one : (a : Residue) → a ⊗ one_r ≡ a
  ⊗-one a = ⊗_comm a one_r ∙ one-⊗ a

  ⊕-zero : (a : Residue) → a ⊕ zero_r ≡ a
  ⊕-zero a = ⊕_comm a zero_r ∙ zero-⊕ a

  -- From `x + a = a s` and `x + b = b s` with `a - b` invertible, `s` is 1.
  unit_of_steps : (a b x s : Residue) → a ≢ b → x ⊕ a ≡ a ⊗ s → x ⊕ b ≡ b ⊗ s → s ≡ one_r
  unit_of_steps a b x s h e f = ⊕_cancel s one_r (i ⊗ (x ⊕ b)) (
      ap₂ ◌⊕◌ (sym (one-⊗ s)) (ap (◌⊗◌ i) f ∙ sym (⊗_assoc i b s))
      ∙ ap₂ ◌⊕◌ (⊗_comm one_r s) (⊗_comm (i ⊗ b) s)
      ∙ sym (⊗-⊕ s one_r (i ⊗ b))
      ∙ ap (◌⊗◌ s) (sym (lawful a b h))
      ∙ ⊗_comm s (i ⊗ a)
      ∙ ⊗_assoc i a s
      ∙ ap (◌⊗◌ i) (sym e)
      ∙ ⊗-⊕ i x a
      ∙ ap (◌⊕◌ (i ⊗ x)) (lawful a b h)
      ∙ sym (⊕_assoc (i ⊗ x) one_r (i ⊗ b))
      ∙ ap (λ t. t ⊕ i ⊗ b) (⊕_comm (i ⊗ x) one_r)
      ∙ ⊕_assoc one_r (i ⊗ x) (i ⊗ b)
      ∙ ap (◌⊕◌ one_r) (sym (⊗-⊕ i x b)))
    where
      i : Residue
      i = inverse a b

  -- The coefficients of the nodes add up to 1.
  pub combine_one :
      (a : Residue) (nodes : List Residue)
      → Distinct (a ∷ nodes)
      → combine inverse (a ∷ nodes) (λ t. one_r) ≡ one_r
  combine_one a [] d = unfold combine weight in (⊕-zero _ ∙ one-⊗ one_r)
  combine_one a (b ∷ nodes) ((h, fresh), (fresh_b, d)) =
      unit_of_steps a b _ _ h (step a (b ∷ nodes) (h, fresh) (combine_one b nodes (fresh_b, d))) (
        ap (λ t. t ⊕ b) (combine_swap inverse a b nodes _)
        ∙ step b (a ∷ nodes) ((λ e. h (sym e)), fresh_b) (combine_one a nodes (fresh, d))
        ∙ ap (◌⊗◌ b) (combine_swap inverse b a nodes _))
    where
      step :
          (x : Residue) (l : List Residue)
          → All (λ t. x ≢ t) l
          → combine inverse l (λ t. one_r) ≡ one_r
          → combine inverse (x ∷ l) (λ t. t ⊗ one_r) ⊕ x ≡ x ⊗ combine inverse (x ∷ l) (λ t. one_r)
      step x l f ih =
          ap (◌⊕◌ _) (sym (⊗-one x) ∙ ap (◌⊗◌ x) (sym ih))
          ∙ combine_step inverse lawful x l (λ t. one_r) f

  constant_of :
      (c : Residue) (r : List Residue) (a : Residue) (nodes : List Residue)
      → Distinct (a ∷ nodes)
      → combine inverse (a ∷ nodes) (λ t. t ⊗ poly_value r t) ≡ zero_r
      → combine inverse (a ∷ nodes) (poly_value (c ∷ r)) ≡ c
  unfolding poly_value
  constant_of c r a nodes d vanish =
      ap (combine inverse (a ∷ nodes))
        (fun_ext λ t. ap (λ s. s ⊕ t ⊗ poly_value r t) (sym (⊗-one c)))
      ∙ combine-⊕ inverse (a ∷ nodes) (λ t. c ⊗ one_r) (λ t. t ⊗ poly_value r t)
      ∙ ap₂ ◌⊕◌
          (combine-⊗ inverse (a ∷ nodes) c (λ t. one_r)
            ∙ ap (◌⊗◌ c) (combine_one a nodes d)
            ∙ ⊗-one c)
          vanish
      ∙ ⊕-zero c

  -- What lies above the constant coefficient cancels out.
  combine_high :
      (r : List Residue) (a : Residue) (nodes : List Residue)
      → Distinct (a ∷ nodes)
      → length r ≤ length nodes
      → combine inverse (a ∷ nodes) (λ t. t ⊗ poly_value r t) ≡ zero_r
  unfolding poly_value
  combine_high [] a nodes d h =
      ap (combine inverse (a ∷ nodes)) (fun_ext λ t. ⊗_comm t zero_r)
      ∙ combine-⊗ inverse (a ∷ nodes) zero_r (λ t. t)
      ∙ zero-⊗ _
  combine_high (c ∷ r) a [] d h = absurd (omega arith)
  combine_high (c ∷ r) a (b ∷ nodes) (fresh, d) h = ⊕_cancel _ zero_r (a ⊗ c) (
      ap (λ s. combine inverse (a ∷ b ∷ nodes) (λ t. t ⊗ poly_value (c ∷ r) t) ⊕ a ⊗ s)
        (sym (constant_of c r b nodes d (combine_high r b nodes d (omega arith))))
      ∙ combine_step inverse lawful a (b ∷ nodes) (poly_value (c ∷ r)) fresh
      ∙ ap (◌⊗◌ a) (
          constant_of c r a (b ∷ nodes) (fresh, d)
            (combine_high r a (b ∷ nodes) (fresh, d) (omega arith)))
      ∙ sym (zero-⊕ _))

  -- Enough distinct nodes recover the constant coefficient.
  pub combine-poly_value :
      (c : Residue) (r : List Residue) (a : Residue) (nodes : List Residue)
      → Distinct (a ∷ nodes)
      → length r ≤ length nodes
      → combine inverse (a ∷ nodes) (poly_value (c ∷ r)) ≡ c
  combine-poly_value c r a nodes d h = constant_of c r a nodes d (combine_high r a nodes d h)
