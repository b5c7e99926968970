-- ===== src/Prelude/Residue.antt =====
-- Residues modulo n with their addition and multiplication: the ring in which scalars live.
use Prim.Native.Nat.{ℕ, ◌+◌, ◌-◌, ◌*◌, ◌/◌, ◌%◌, ◌<◌}
use mathlib.Core.Path.{◌≡◌, refl, ◌∙◌, ap, sym, subst}
use mathlib.Core.HLevel.{Σ_prop_path}
use native.Mathlib.Bridge.{le_prop}
use native.Mathlib.Decide.{ℕ_discrete}
use native.Mathlib.Omega.{arith}
use native.Mathlib.Nat.{
  mod-lt, mod-eq_of_lt, mod-add-mod, add-mod-mod, add-mul-mod_self_left, div-add-mod, mul_comm,
  mod_self,
}

pub record Modulus : Type 0 where
  pub n : ℕ
  pub positive : 0 < n

module _ ⦃m : Modulus⦄ where
  abbrev pub Residue : Type 0
  Residue = (k : ℕ) × (k < m.n)

  pub mod_bound : (k : ℕ) → k % m.n < m.n
  mod_bound k = mod-lt k m.positive

  -- The residue of a number.
  unfoldable pub residue : ℕ → Residue
  residue k = (k % m.n, mod_bound k)

  infixl 65 ◌⊕◌
  infixl 70 ◌⊗◌
  unfoldable pub ◌⊕◌ : Residue → Residue → Residue
  a ⊕ b = residue (a.0 + b.0)

  unfoldable pub ◌⊗◌ : Residue → Residue → Residue
  a ⊗ b = residue (a.0 * b.0)

  pub residue_eq : (a b : Residue) → a.0 ≡ b.0 → a ≡ b
  residue_eq a b e = Σ_prop_path (λ k. le_prop) e

  pub residue_value : (k : ℕ) → (residue k).0 ≡ k % m.n
  unfolding residue
  residue_value k = refl

  -- Every residue is the residue of its number.
  pub residue_self : (a : Residue) → residue a.0 ≡ a
  unfolding residue
  residue_self a = residue_eq _ _ (mod-eq_of_lt a.1)

  pub residue_congr : (a b : ℕ) → a % m.n ≡ b % m.n → residue a ≡ residue b
  unfolding residue
  residue_congr a b e = residue_eq _ _ e

  -- A statement about all residues, from the statement about the residues of numbers.
  pub each {ℓ} : (P : Residue → Type ℓ) → ((k : ℕ) → P (residue k)) → (a : Residue) → P a
  each P h a = subst P (residue_self a) (h a.0)

  mul-mod_left : (a c : ℕ) → a % m.n * c % m.n ≡ a * c % m.n
  mul-mod_left a c =
      sym (add-mul-mod_self_left (a % m.n * c) m.n (a / m.n * c))
      ∙ ap (λ (t : ℕ). t % m.n) (omega (arith, ap (λ (t : ℕ). t * c) (div-add-mod a m.n)))

  pub residue-⊕ : (a c : ℕ) → residue a ⊕ residue c ≡ residue (a + c)
  unfolding ◌⊕◌ residue
  residue-⊕ a c = residue_eq _ _ (mod-add-mod a m.n _ ∙ add-mod-mod a c m.n)

  pub residue-⊗ : (a c : ℕ) → residue a ⊗ residue c ≡ residue (a * c)
  unfolding ◌⊗◌ residue
  residue-⊗ a c = residue_eq _ _ (
      mul-mod_left a (c % m.n)
      ∙ ap (λ (t : ℕ). t % m.n) (mul_comm a (c % m.n))
      ∙ mul-mod_left c a
      ∙ ap (λ (t : ℕ). t % m.n) (mul_comm c a))

  pub ruleset ring = (residue-⊕, residue-⊗)

  unfoldable pub residue-dec : Discrete Residue
  residue-dec a c = elim (ℕ_discrete a.0 c.0) [
    | yes e ↦ yes (residue_eq a c e)
    | no f ↦ no (λ e. f (ap (λ (t : Residue). t.0) e))
  ]

  unfoldable pub zero_r : Residue
  zero_r = residue 0

  unfoldable pub one_r : Residue
  one_r = residue 1

  unfoldable pub neg_r : Residue → Residue
  neg_r a = residue (m.n - a.0)

  pub ⊕_comm : (a c : Residue) → a ⊕ c ≡ c ⊕ a
  ⊕_comm a c =
      each (λ a. a ⊕ c ≡ c ⊕ a)
        (λ x.
          each (λ c. residue x ⊕ c ≡ c ⊕ residue x) (λ y. simp ring (ap residue (omega arith))) c)
        a

  pub ⊗_comm : (a c : Residue) → a ⊗ c ≡ c ⊗ a
  unfolding ◌⊗◌
  ⊗_comm a c = ap residue (omega arith)

  pub zero-⊕ : (a : Residue) → zero_r ⊕ a ≡ a
  unfolding zero_r
  zero-⊕ = each (λ a. residue 0 ⊕ a ≡ a) (λ x. simp ring (ap residue (omega arith)))

  pub one-⊗ : (a : Residue) → one_r ⊗ a ≡ a
  unfolding one_r
  one-⊗ = each (λ a. residue 1 ⊗ a ≡ a) (λ x. simp ring (ap residue (omega arith)))

  pub zero-⊗ : (a : Residue) → zero_r ⊗ a ≡ zero_r
  unfolding zero_r
  zero-⊗ = each (λ a. residue 0 ⊗ a ≡ residue 0) (λ x. simp ring (ap residue (omega arith)))

  pub ⊕-neg : (a : Residue) → a ⊕ neg_r a ≡ zero_r
  unfolding zero_r neg_r ◌⊕◌ residue
  ⊕-neg a = residue_eq _ _ (add-mod-mod a.0 (m.n - a.0) m.n ∙ whole)
    where
      sum : a.0 + (m.n - a.0) ≡ m.n
      sum = let lt : a.0 < m.n = a.1 in omega arith

      whole : (a.0 + (m.n - a.0)) % m.n ≡ 0 % m.n
      whole = rw sum (mod_self m.n ∙ sym (mod-eq_of_lt m.positive))

  module _ (a c d : Residue) where
    over₃ :
        (P : Residue → Residue → Residue → Type 0)
        → ((x y z : ℕ) → P (residue x) (residue y) (residue z))
        → P a c d
    over₃ P h =
        each (λ a. P a c d)
          (λ x. each (λ c. P (residue x) c d) (λ y. each (P (residue x) (residue y)) (h x y) d) c) a

    pub ⊕_assoc : a ⊕ c ⊕ d ≡ a ⊕ (c ⊕ d)
    ⊕_assoc = over₃ (λ a c d. a ⊕ c ⊕ d ≡ a ⊕ (c ⊕ d)) λ x y z. simp ring (ap residue (omega arith))

    pub ⊗_assoc : a ⊗ c ⊗ d ≡ a ⊗ (c ⊗ d)
    ⊗_assoc = over₃ (λ a c d. a ⊗ c ⊗ d ≡ a ⊗ (c ⊗ d)) λ x y z. simp ring (ap residue (omega arith))

    pub ⊗_left_comm : a ⊗ (c ⊗ d) ≡ c ⊗ (a ⊗ d)
    ⊗_left_comm =
        over₃ (λ a c d. a ⊗ (c ⊗ d) ≡ c ⊗ (a ⊗ d)) λ x y z. simp ring (ap residue (omega arith))

    pub ⊗-⊕ : a ⊗ (c ⊕ d) ≡ a ⊗ c ⊕ a ⊗ d
    ⊗-⊕ = over₃ (λ a c d. a ⊗ (c ⊕ d) ≡ a ⊗ c ⊕ a ⊗ d) λ x y z. simp ring (ap residue (omega arith))

    pub ⊕_right_comm : a ⊕ c ⊕ d ≡ a ⊕ d ⊕ c
    ⊕_right_comm =
        over₃ (λ a c d. a ⊕ c ⊕ d ≡ a ⊕ d ⊕ c) λ x y z. simp ring (ap residue (omega arith))

  pub ⊕_cancel : (a c d : Residue) → a ⊕ d ≡ c ⊕ d → a ≡ c
  ⊕_cancel a c d e = sym (undo a) ∙ ap (λ t. t ⊕ neg_r d) e ∙ undo c
    where
      undo : (x : Residue) → x ⊕ d ⊕ neg_r d ≡ x
      undo x = ⊕_assoc x d (neg_r d) ∙ rw (⊕-neg d, ⊕_comm x zero_r, zero-⊕ x)
