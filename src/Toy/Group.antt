-- ===== src/Toy/Group.antt =====
-- The integers modulo 7 as a group of prime order, written in octets.
use nucypher_kms_umbral.Prelude.{
  ℕ, zero, suc, ◌*◌, ◌%◌, ◌<◌, ◌≡◌, ◌≢◌, refl, sym, ap, ◌∙◌, [], ◌∷◌, ltb, arith, ℤ, pos, ◌⊎◌, inl,
  inr, if◌then◌else◌, true, ◌==◌, Bool,
}
use nucypher_kms_umbral.Prelude.Bytes.{Bytes}
use nucypher_kms_umbral.Prelude.Residue.{
  Modulus, Residue, residue, residue-dec, residue-⊕, residue_self, residue_eq, zero_r, ◌⊕◌,
}
use nucypher_kms_umbral.Backend.Interface.{Octets, decoded, reason}

instance abbrev pub seven : Modulus
seven = record { n = 7; positive = omega arith }

pub prime : (a : ℕ) → a % 7 ≢ 0 → (c : ℕ) × (a * c % 7 ≡ 1)
prime a h = by_remainder (a % 7) refl
  where
    by_remainder : (r : ℕ) → a % 7 ≡ r → (c : ℕ) × (a * c % 7 ≡ 1)
    by_remainder zero e = absurd (h e)
    by_remainder (suc zero) e = (1, omega arith)
    by_remainder (suc (suc zero)) e = (4, omega arith)
    by_remainder (suc (suc (suc zero))) e = (5, omega arith)
    by_remainder (suc (suc (suc (suc zero)))) e = (2, omega arith)
    by_remainder (suc (suc (suc (suc (suc zero))))) e = (3, omega arith)
    by_remainder (suc (suc (suc (suc (suc (suc zero)))))) e = (6, omega arith)
    by_remainder (suc (suc (suc (suc (suc (suc (suc k))))))) e = absurd (omega arith)

unfoldable pub multiple : ℕ → Residue → Residue
unfolding residue
multiple k p = residue (k * p.0)

pub multiple-zero : (p : Residue) → multiple 0 p ≡ zero_r
unfolding multiple zero_r residue
multiple-zero p = residue_eq _ _ (omega arith)

pub multiple-suc : (k : ℕ) (p : Residue) → multiple (suc k) p ≡ p ⊕ multiple k p
unfolding multiple
multiple-suc k p =
    ap residue (omega arith)
    ∙ sym (residue-⊕ p.0 (k * p.0))
    ∙ ap (λ (t : Residue). t ⊕ residue (k * p.0)) (residue_self p)

pub multiple-seven : (p : Residue) → multiple 7 p ≡ zero_r
unfolding multiple zero_r residue
multiple-seven p = residue_eq _ _ (omega arith)

unfoldable pub sign_of : {A : Type 0} → Dec A → ℤ
sign_of (yes _) = pos 0
sign_of (no _) = pos 1

sign_of_lem : {A : Type 0} (d : Dec A) → (sign_of d ≡ pos 0) × A ⊎ (sign_of d ≡ pos 1) × ¬ A
unfolding sign_of
sign_of_lem (yes e) = inl (refl, e)
sign_of_lem (no f) = inr (refl, f)

unfoldable pub compare_points : Residue → Residue → ℤ
unfolding sign_of
compare_points p q = sign_of (residue-dec p q)

pub compare_points_lem :
    (p q : Residue)
    → (compare_points p q ≡ pos 0) × (p ≡ q) ⊎ (compare_points p q ≡ pos 1) × (p ≢ q)
unfolding compare_points
compare_points_lem p q = sign_of_lem (residue-dec p q)

-- The identity is one zero byte; another element is the byte 2 and its number.
unfoldable pub to_octets : Residue → Bytes
to_octets p = if p.0 == 0 then 0 ∷ [] else 2 ∷ p.0 ∷ []

unfoldable pub of_octets : Bytes → Octets Residue
unfolding residue
of_octets [] = reason 100
of_octets (x ∷ []) = if x == 0 then decoded (residue 0) else reason 101
of_octets (x ∷ y ∷ []) =
    if x == 2 then (if ltb y 7 then decoded (residue y) else reason 110) else reason 102
of_octets (x ∷ y ∷ z ∷ bs) = reason 100

not_zero : (p : Residue) → p ≢ zero_r → p.0 ≢ 0
unfolding zero_r residue
not_zero p h e = h (residue_eq _ _ e)

pub of_octets-to_octets :
    (p : Residue)
    → p ≢ zero_r
    → (to_octets p ≡ 2 ∷ p.0 ∷ []) × (of_octets (2 ∷ p.0 ∷ []) ≡ decoded p)
unfolding to_octets of_octets
of_octets-to_octets p h = (rw other refl, rw below (ap decoded (residue_self p)))
  where
    other : (p.0 == 0) ≡ Bool.false
    other = let ne = not_zero p h in ground arith

    below : ltb p.0 7 ≡ true
    below = let lt : p.0 < 7 = p.1 in ground arith

abbrev pub four : Residue
four = residue 4

pub four_ne_zero : four ≢ zero_r
unfolding residue zero_r
four_ne_zero e = omega (arith, ap (λ (t : Residue). t.0) e)

pub one_ne_zero : residue 1 ≢ zero_r
unfolding residue zero_r
one_ne_zero e = omega (arith, ap (λ (t : Residue). t.0) e)
