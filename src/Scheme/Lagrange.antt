-- ===== src/Scheme/Lagrange.antt =====
-- Shamir reconstruction at zero, as `lambda_coeff` and `poly_eval` use it: over distinct nodes, as
-- many as the polynomial has coefficients at least, the weighted sum of the values is the constant
-- coefficient. `inverse u x` stands for the inverse of `u - x`; no subtraction is needed.
use nucypher_kms_umbral.Prelude.{◌≡◌, ◌≢◌, refl, sym, ap, ap₂, ◌∙◌, List, [], ◌∷◌, All}
use nucypher_kms_umbral.Prelude.Residue.{
  Modulus, Residue, ◌⊕◌, ◌⊗◌, zero_r, one_r, ⊕_comm, ⊗_comm, zero-⊕, one-⊗, zero-⊗, ⊕_assoc,
  ⊗_assoc, ⊗_left_comm, ⊗-⊕, ⊕_right_comm,
}
use mathlib.Core.Path.{fun_ext}

module _ ⦃m : Modulus⦄ where
  -- The value at `x` of the polynomial with the given coefficients, constant first.
  unfoldable pub poly_value : List Residue → Residue → Residue
  poly_value [] x = zero_r
  poly_value (c ∷ r) x = c ⊕ x ⊗ poly_value r x

  abbrev pub Distinct : List Residue → Type 0
  Distinct [] = Unit
  Distinct (a ∷ nodes) = All (λ t. a ≢ t) nodes × Distinct nodes

  abbrev pub IsInverse : (Residue → Residue → Residue) → Type 0
  IsInverse inverse = (u x : Residue) → u ≢ x → inverse u x ⊗ u ≡ one_r ⊕ inverse u x ⊗ x

  module _ (inverse : Residue → Residue → Residue) where
    -- What the node `u` contributes to the coefficient of the node `x`.
    unfoldable pub factor : Residue → Residue → Residue
    factor u x = u ⊗ inverse u x

    unfoldable pub weight : Residue → List Residue → Residue
    weight x [] = one_r
    weight x (u ∷ nodes) = factor u x ⊗ weight x nodes

    -- The sum over the nodes of the coefficient times the value there.
    unfoldable pub combine : List Residue → (Residue → Residue) → Residue
    combine [] φ = zero_r
    combine (a ∷ nodes) φ = weight a nodes ⊗ φ a ⊕ combine nodes (λ t. factor a t ⊗ φ t)

    combine_congr :
        (nodes : List Residue) (φ ψ : Residue → Residue)
        → All (λ t. φ t ≡ ψ t) nodes
        → combine nodes φ ≡ combine nodes ψ
    unfolding combine
    combine_congr [] φ ψ h = refl
    combine_congr (a ∷ nodes) φ ψ (e, h) =
        ap₂ ◌⊕◌ (ap (◌⊗◌ (weight a nodes)) e) (combine_congr nodes _ _ (under nodes h))
      where
        under :
            (l : List Residue)
            → All (λ t. φ t ≡ ψ t) l
            → All (λ t. factor a t ⊗ φ t ≡ factor a t ⊗ ψ t) l
        under [] h = tt
        under (t ∷ l) (e, h) = (ap (◌⊗◌ (factor a t)) e, under l h)

    interchange : (a b c d : Residue) → (a ⊕ b) ⊕ (c ⊕ d) ≡ (a ⊕ c) ⊕ (b ⊕ d)
    interchange a b c d =
        sym (⊕_assoc (a ⊕ b) c d) ∙ ap (λ t. t ⊕ d) (⊕_right_comm a b c) ∙ ⊕_assoc (a ⊕ c) b d

    pub combine-⊕ :
        (nodes : List Residue) (φ ψ : Residue → Residue)
        → combine nodes (λ t. φ t ⊕ ψ t) ≡ combine nodes φ ⊕ combine nodes ψ
    unfolding combine
    combine-⊕ [] φ ψ = sym (zero-⊕ zero_r)
    combine-⊕ (a ∷ nodes) φ ψ =
        ap₂ ◌⊕◌ (⊗-⊕ (weight a nodes) (φ a) (ψ a)) (
          ap (combine nodes) (fun_ext λ t. ⊗-⊕ (factor a t) (φ t) (ψ t))
          ∙ combine-⊕ nodes (λ t. factor a t ⊗ φ t) (λ t. factor a t ⊗ ψ t))
        ∙ interchange _ _ _ _

    pub combine-⊗ :
        (nodes : List Residue) (c : Residue) (φ : Residue → Residue)
        → combine nodes (λ t. c ⊗ φ t) ≡ c ⊗ combine nodes φ
    unfolding combine
    combine-⊗ [] c φ = sym (⊗_comm c zero_r ∙ zero-⊗ c)
    combine-⊗ (a ∷ nodes) c φ =
        ap₂ ◌⊕◌ (⊗_left_comm (weight a nodes) c (φ a)) (
          ap (combine nodes) (fun_ext λ t. ⊗_left_comm (factor a t) c (φ t))
          ∙ combine-⊗ nodes c (λ t. factor a t ⊗ φ t))
        ∙ sym (⊗-⊕ c _ _)

    pub combine_swap :
        (a b : Residue) (nodes : List Residue) (φ : Residue → Residue)
        → combine (a ∷ b ∷ nodes) φ ≡ combine (b ∷ a ∷ nodes) φ
    unfolding combine weight
    combine_swap a b nodes φ =
        sym (⊕_assoc _ _ _)
        ∙ ap₂ ◌⊕◌ (⊕_comm _ _ ∙ ap₂ ◌⊕◌ (swap_head a b) (sym (swap_head b a)))
            (ap (combine nodes) (fun_ext λ t. ⊗_left_comm (factor b t) (factor a t) (φ t)))
        ∙ ⊕_assoc _ _ _
      where
        swap_head :
            (a b : Residue)
            → weight b nodes ⊗ (factor a b ⊗ φ b) ≡ (factor a b ⊗ weight b nodes) ⊗ φ b
        swap_head a b =
            ⊗_left_comm (weight b nodes) (factor a b) (φ b) ∙ sym (⊗_assoc (factor a b) _ _)

    module _ (lawful : IsInverse inverse) where
      factor_step : (a t : Residue) → a ≢ t → factor a t ⊗ t ⊕ a ≡ a ⊗ factor a t
      unfolding factor
      factor_step a t h =
          ⊕_comm _ a
          ∙ ap₂ ◌⊕◌ (sym (⊗_comm a one_r ∙ one-⊗ a)) (⊗_assoc a (inverse a t) t)
          ∙ sym (⊗-⊕ a one_r (inverse a t ⊗ t))
          ∙ ap (◌⊗◌ a) (sym (lawful a t h) ∙ ⊗_comm (inverse a t) a)

      -- How a factor `t` in the values moves the head node out.
      pub combine_step :
          (a : Residue) (nodes : List Residue) (φ : Residue → Residue)
          → All (λ t. a ≢ t) nodes
          → combine (a ∷ nodes) (λ t. t ⊗ φ t) ⊕ a ⊗ combine nodes φ ≡ a ⊗ combine (a ∷ nodes) φ
      unfolding combine
      combine_step a nodes φ fresh =
          ⊕_assoc _ _ _ ∙ ap₂ ◌⊕◌ (⊗_left_comm (weight a nodes) a (φ a)) tail_sum ∙ sym (⊗-⊕ a _ _)
        where
          pointwise :
              (t : Residue) → a ≢ t → factor a t ⊗ (t ⊗ φ t) ⊕ a ⊗ φ t ≡ a ⊗ (factor a t ⊗ φ t)
          pointwise t h =
              ap₂ ◌⊕◌ (sym (⊗_assoc (factor a t) t (φ t)) ∙ ⊗_comm _ (φ t)) (⊗_comm a (φ t))
              ∙ sym (⊗-⊕ (φ t) _ a)
              ∙ ap (◌⊗◌ (φ t)) (factor_step a t h)
              ∙ ⊗_comm (φ t) _
              ∙ ⊗_assoc a (factor a t) (φ t)

          everywhere :
              (l : List Residue)
              → All (λ t. a ≢ t) l
              → All (λ t. factor a t ⊗ (t ⊗ φ t) ⊕ a ⊗ φ t ≡ a ⊗ (factor a t ⊗ φ t)) l
          everywhere [] h = tt
          everywhere (t ∷ l) (h, rest) = (pointwise t h, everywhere l rest)

          tail_sum :
              combine nodes (λ t. factor a t ⊗ (t ⊗ φ t)) ⊕ a ⊗ combine nodes φ
              ≡ a ⊗ combine nodes (λ t. factor a t ⊗ φ t)
          tail_sum =
              ap (◌⊕◌ _) (sym (combine-⊗ nodes a φ))
              ∙ sym (combine-⊕ nodes (λ t. factor a t ⊗ (t ⊗ φ t)) (λ t. a ⊗ φ t))
              ∙ combine_congr nodes _ _ (everywhere nodes fresh)
              ∙ combine-⊗ nodes a _
