-- ===== src/Capsule/Combine.antt =====
-- `lambda_coeff` computes the weights of the reconstruction theorem, and the weighted sums of
-- `open_reencrypted` are the combination of the shares.
use nucypher_kms_umbral.Prelude.{
  ℕ, zero, suc, ◌+◌, ◌<◌, ◌≤◌, ◌≡◌, ◌≢◌, ◌==◌, refl, sym, ap, ap₂, ◌∙◌, List, [], ◌∷◌, map, ok,
  some, arith, All, length, get_elem?, true, false,
}
use nucypher_kms_umbral.Prelude.Residue.{
  Residue, ◌⊕◌, ◌⊗◌, zero_r, one_r, one-⊗, ⊗_comm, ⊗_assoc, ⊗-⊕, zero-⊕,
}
use nucypher_kms_umbral.Backend.Interface.{Backend}
use nucypher_kms_umbral.Backend.Laws.{BignumLaws, CurveLaws}
use nucypher_kms_umbral.Openssl.Secp256k1.{secp256k1, scalar_modulus}
use nucypher_kms_umbral.CurveScalar.Arithmetic.{
  scalar, mul-scalar, sub-scalar, minus, minus-⊕, inverse_r, invert-scalar, inverse_r-⊗, one-scalar,
}
use nucypher_kms_umbral.CurvePoint.Arithmetic.{pt, smul, mul-pt, add-pt, smul-⊕, smul-⊗, smul-zero}
use nucypher_kms_umbral.Scheme.Lagrange.{IsInverse, factor, weight, combine, Distinct}
use nucypher_kms_umbral.CapsuleFrag.Defs.{CapsuleFrag}
use nucypher_kms_umbral.Capsule.Open.{
  item, lambda_step, lambda_loop, lambda_coeff, weighted, sum_from, sum_points,
}
use mathlib.Core.List.{reverse_aux}
use mathlib.Core.Path.{fun_ext}

get_elem?-reverse_aux {ℓ} :
    {A : Type ℓ} (before rest : List A) (k n : ℕ)
    → n ≡ length before + k
    → get_elem? (reverse_aux before rest) n ≡ get_elem? rest k
get_elem?-reverse_aux [] rest k n e = ap (get_elem? rest) (omega arith)
get_elem?-reverse_aux (x ∷ before) rest k n e =
    get_elem?-reverse_aux before (x ∷ rest) (suc k) n (omega arith)

get_elem?-map {ℓ κ} :
    {A : Type ℓ} {B : Type κ} (f : A → B) (xs : List A) (n : ℕ) {x : A}
    → get_elem? xs n ≡ some x
    → get_elem? (map f xs) n ≡ some (f x)
get_elem?-map f [] n e = cc
get_elem?-map f (y ∷ xs) zero e = cc
get_elem?-map f (y ∷ xs) (suc n) e = get_elem?-map f xs n e

module _ ⦃lib : Backend⦄ ⦃bignum : BignumLaws⦄ ⦃curve : CurveLaws⦄ where
  -- What `(u - x).invert()` computes.
  pub difference_inverse : Residue → Residue → Residue
  difference_inverse u x = inverse_r (minus u x)

  minus_ne : (u x : Residue) → u ≢ x → minus u x ≢ zero_r
  minus_ne u x h e = h (sym (minus-⊕ u x) ∙ ap (λ t. t ⊕ x) e ∙ zero-⊕ x)

  pub difference_inverse-IsInverse : IsInverse difference_inverse
  unfolding difference_inverse
  difference_inverse-IsInverse u x h =
      ap (◌⊗◌ (inverse_r (minus u x))) (sym (minus-⊕ u x))
      ∙ ⊗-⊕ (inverse_r (minus u x)) (minus u x) x
      ∙ ap (λ t. t ⊕ inverse_r (minus u x) ⊗ x) (inverse_r-⊗ (minus u x) (minus_ne u x h))

  module _ (xs : List Residue) (i : ℕ) (x : Residue)
      (found : get_elem? (map scalar xs) i ≡ some (scalar x)) where
    lambda_step-scalar :
        (res y : Residue)
        → y ≢ x
        → lambda_step (map scalar xs) i (scalar res) (scalar y)
          ≡ ok (scalar (res ⊗ factor difference_inverse y x))
    unfolding factor difference_inverse lambda_step
    lambda_step-scalar res y h =
        rw
          (
            lambda_step,
            item,
            found,
            sub-scalar y x,
            invert-scalar (minus y x) (minus_ne y x h),
            mul-scalar res y,
            mul-scalar,
          )
          (ap (λ t. ok (scalar t)) (⊗_assoc res y (inverse_r (minus y x))))

    -- The nodes behind the index contribute their factors.
    lambda_loop_after :
        (ys : List Residue) (j : ℕ) (res : Residue)
        → i < j
        → All (λ y. y ≢ x) ys
        → lambda_loop (map scalar xs) i (map scalar ys) j (scalar res)
          ≡ ok (scalar (res ⊗ weight difference_inverse x ys))
    unfolding lambda_loop weight
    lambda_loop_after [] j res lt h = ap (λ t. ok (scalar t)) (sym (one-⊗ res) ∙ ⊗_comm one_r res)
    lambda_loop_after (y ∷ ys) j res lt (h, hs) =
        rw (differ j lt, lambda_step-scalar res y h)
          (lambda_loop_after ys (j + 1) _ (omega arith) hs
            ∙ ap (λ t. ok (scalar t)) (⊗_assoc res _ _))
      where
        differ : (j : ℕ) → i < j → (j == i) ≡ false
        differ j lt = ground arith

    lambda_loop_next :
        (y : Residue) (rest : List Residue) (j : ℕ) (res : Residue)
        → (j == i) ≡ false
        → y ≢ x
        → lambda_loop (map scalar xs) i (map scalar (y ∷ rest)) j (scalar res)
          ≡ lambda_loop
              (map scalar xs)
              i
              (map scalar rest)
              (j + 1)
              (scalar (res ⊗ factor difference_inverse y x))
    unfolding lambda_loop
    lambda_loop_next y rest j res differ h = rw (differ, lambda_step-scalar res y h) refl

    -- The node at the index contributes nothing.
    lambda_loop_at :
        (rest : List Residue) (res : Residue)
        → lambda_loop (map scalar xs) i (map scalar (x ∷ rest)) i (scalar res)
          ≡ lambda_loop (map scalar xs) i (map scalar rest) (i + 1) (scalar res)
    unfolding lambda_loop
    lambda_loop_at rest res = rw (same) refl
      where
        same : (i == i) ≡ true
        same = ground arith

    -- The nodes before it are multiplied in first.
    lambda_loop_before :
        (before rest : List Residue)
        → length before ≤ i
        → All (λ y. y ≢ x) before
        → lambda_loop (map scalar xs) i (map scalar (reverse_aux before rest)) 0 (scalar one_r)
          ≡ lambda_loop
              (map scalar xs)
              i
              (map scalar rest)
              (length before)
              (scalar (weight difference_inverse x before))
    unfolding weight
    lambda_loop_before [] rest le h = refl
    lambda_loop_before (y ∷ before) rest le (h, hs) =
        lambda_loop_before before (y ∷ rest) (omega arith) hs
        ∙ lambda_loop_next y rest (length before) _ differ h
        ∙ ap₂ (λ j c. lambda_loop (map scalar xs) i (map scalar rest) j (scalar c)) (omega arith)
            (⊗_comm _ _)
      where
        differ : (length before == i) ≡ false
        differ = ground arith

  module _ (before rest : List Residue) (x : Residue) where
    abbrev nodes : List Residue
    nodes = reverse_aux before (x ∷ rest)

    start :
        lambda_coeff (map scalar nodes) (length before)
        ≡ lambda_loop (map scalar nodes) (length before) (map scalar nodes) 0 (scalar one_r)
    unfolding lambda_coeff
    start = rw one-scalar refl

    found : get_elem? (map scalar nodes) (length before) ≡ some (scalar x)
    found =
        get_elem?-map scalar nodes (length before)
          (get_elem?-reverse_aux before (x ∷ rest) 0 (length before) (omega arith))

    -- The coefficient at an index, for the scalars of distinct nodes.
    pub lambda_coeff-scalar :
        All (λ y. y ≢ x) before
        → All (λ y. y ≢ x) rest
        → lambda_coeff (map scalar nodes) (length before)
          ≡ ok (scalar (weight difference_inverse x before ⊗ weight difference_inverse x rest))
    lambda_coeff-scalar hb hr =
        let w = weight difference_inverse x before in
        start
        ∙ lambda_loop_before nodes (length before) x found before (x ∷ rest) (omega arith) hb
        ∙ lambda_loop_at nodes (length before) x found rest w
        ∙ lambda_loop_after nodes (length before) x found rest (length before + 1) w (omega arith)
            hr

  -- The points of `weighted`, for the values `φ` at the nodes.
  module _ (φ : Residue → Residue) (p : lib.Point) where
    pub shares : List Residue → List Residue → List lib.Point
    shares before [] = []
    shares before (x ∷ rest) =
        smul (weight difference_inverse x before ⊗ weight difference_inverse x rest) (smul (φ x) p)
        ∷ shares (x ∷ before) rest

    -- The value at a node, with the factors of the nodes before it.
    abbrev carried : List Residue → Residue → Residue
    carried before t = weight difference_inverse t before ⊗ φ t

    share-smul :
        (before rest : List Residue) (x : Residue)
        → smul
            (weight difference_inverse x before ⊗ weight difference_inverse x rest)
            (smul (φ x) p)
          ≡ smul (weight difference_inverse x rest ⊗ carried before x) p
    share-smul before rest x =
        sym (smul-⊗ _ (φ x) p)
        ∙ ap (λ c. smul c p) (ap (λ c. c ⊗ φ x) (⊗_comm _ _) ∙ ⊗_assoc _ _ (φ x))

    carry :
        (before : List Residue) (x : Residue)
        → (λ (t : Residue). factor difference_inverse x t ⊗ carried before t) ≡ carried (x ∷ before)
    unfolding weight
    carry before x = fun_ext λ t. sym (⊗_assoc _ _ _)

    carried_nil : carried [] ≡ φ
    unfolding weight
    carried_nil = fun_ext λ t. one-⊗ (φ t)

    add_share :
        (before rest : List Residue) (x : Residue)
        → curve.plus
            (smul
              (weight difference_inverse x before ⊗ weight difference_inverse x rest)
              (smul (φ x) p))
            (smul (combine difference_inverse rest (carried (x ∷ before))) p)
          ≡ smul (combine difference_inverse (x ∷ rest) (carried before)) p
    unfolding combine
    add_share before rest x =
        ap₂ curve.plus (share-smul before rest x)
          (ap (λ ψ. smul (combine difference_inverse rest ψ) p) (sym (carry before x)))
        ∙ sym (smul-⊕ _ _ p)

    sum_from-shares :
        (before rest : List Residue) (total : lib.Point)
        → sum_from (pt total) (map pt (shares before rest))
          ≡ ok (pt (curve.plus total (smul (combine difference_inverse rest (carried before)) p)))
    unfolding sum_from shares combine
    sum_from-shares before [] total = ap (λ t. ok (pt t)) (sym (no_more total))
      where
        no_more :
            (total : lib.Point)
            → curve.plus total (smul (combine difference_inverse [] (carried before)) p) ≡ total
        no_more total =
            curve.plus_comm total _
            ∙ ap (λ q. curve.plus q total) (smul-zero p)
            ∙ curve.plus_identity total
    sum_from-shares before (x ∷ rest) total = rw (add-pt) (
        sum_from-shares (x ∷ before) rest _
        ∙ ap (λ t. ok (pt t))
            (curve.plus_assoc total _ _ ∙ ap (curve.plus total) (add_share before rest x)))

    -- Their sum is the combination of the values times the point.
    pub sum_points-shares :
        (x : Residue) (rest : List Residue)
        → sum_points (map pt (shares [] (x ∷ rest)))
          ≡ ok (pt (smul (combine difference_inverse (x ∷ rest) φ) p))
    unfolding sum_points shares
    sum_points-shares x rest =
        sum_from-shares (x ∷ []) rest _
        ∙ ap (λ t. ok (pt t))
            (add_share [] rest x
              ∙ ap (λ ψ. smul (combine difference_inverse (x ∷ rest) ψ) p) carried_nil)

  module _ (φ : Residue → Residue) (e v : lib.Point) where
    -- The fragments carry the values at the nodes times the points of the capsule.
    abbrev pub AreShares : List CapsuleFrag → List Residue → Type 0
    AreShares [] [] = Unit
    AreShares [] (x ∷ rest) = ⊥
    AreShares (cfrag ∷ cfrags) [] = ⊥
    AreShares (cfrag ∷ cfrags) (x ∷ rest) =
        ((cfrag.point_e1 ≡ pt (smul (φ x) e)) × (cfrag.point_v1 ≡ pt (smul (φ x) v)))
        × AreShares cfrags rest

    -- The nodes are distinct, and differ from those before.
    abbrev Apart : List Residue → List Residue → Type 0
    Apart before [] = Unit
    Apart before (x ∷ rest) =
        All (λ y. y ≢ x) before × All (λ y. y ≢ x) rest × Apart (x ∷ before) rest

    weighted-shares_from :
        (before rest : List Residue) (cfrags : List CapsuleFrag)
        → Apart before rest
        → AreShares cfrags rest
        → weighted (map scalar (reverse_aux before rest)) (length before) cfrags
          ≡ ok (map pt (shares φ e before rest), map pt (shares φ v before rest))
    unfolding weighted shares
    weighted-shares_from before [] [] ap_ h = refl
    weighted-shares_from before [] (cfrag ∷ cfrags) ap_ h = absurd h
    weighted-shares_from before (x ∷ rest) [] ap_ h = absurd h
    weighted-shares_from before (x ∷ rest) (cfrag ∷ cfrags) (hb, hr, hs) ((he, hv), h) =
        let next : length before + 1 ≡ length (x ∷ before) = omega arith in
        rw
          (
            lambda_coeff-scalar before rest x hb hr,
            he,
            hv,
            mul-pt,
            mul-pt,
            next,
            weighted-shares_from (x ∷ before) rest cfrags hs h,
          )
          refl

    apart :
        (before rest : List Residue)
        → Distinct rest
        → All (λ y. All (λ t. y ≢ t) rest) before
        → Apart before rest
    apart before [] h hs = tt
    apart before (x ∷ rest) (h, d) hs =
        (heads before hs, flip rest h, apart (x ∷ before) rest d (h, tails before hs))
      where
        heads : (l : List Residue) → All (λ y. All (λ t. y ≢ t) (x ∷ rest)) l → All (λ y. y ≢ x) l
        heads [] hs = tt
        heads (y ∷ l) ((ne, _), hs) = (ne, heads l hs)

        tails :
            (l : List Residue)
            → All (λ y. All (λ t. y ≢ t) (x ∷ rest)) l
            → All (λ y. All (λ t. y ≢ t) rest) l
        tails [] hs = tt
        tails (y ∷ l) ((_, nes), hs) = (nes, tails l hs)

        flip : (l : List Residue) → All (λ t. x ≢ t) l → All (λ y. y ≢ x) l
        flip [] h = tt
        flip (y ∷ l) (ne, h) = (λ q. ne (sym q), flip l h)

    -- What the loop over the fragments computes, when their nodes are distinct.
    pub weighted-shares :
        (xs : List Residue) (cfrags : List CapsuleFrag)
        → Distinct xs
        → AreShares cfrags xs
        → weighted (map scalar xs) 0 cfrags
          ≡ ok (map pt (shares φ e [] xs), map pt (shares φ v [] xs))
    weighted-shares xs cfrags d h = weighted-shares_from [] xs cfrags (apart [] xs d tt) h
