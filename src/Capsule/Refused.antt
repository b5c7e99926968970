-- ===== src/Capsule/Refused.antt =====
-- `open_reencrypted` refuses repeated fragments.
use nucypher_kms_umbral.Prelude.{
  ℕ, suc, ◌+◌, ◌≤◌, ◌≡◌, ◌==◌, refl, sym, ap, ◌∙◌, ◌⊎◌, inl, inr, ℤ, List, [], ◌∷◌, ok, err,
  value_error, true, false, length, All, arith,
}
use nucypher_kms_umbral.Backend.Interface.{Backend}
use nucypher_kms_umbral.Backend.Laws.{BignumLaws, CurveLaws}
use nucypher_kms_umbral.Openssl.Secp256k1.{secp256k1}
use nucypher_kms_umbral.Keys.Defs.{PublicKey, SecretKey}
use nucypher_kms_umbral.CapsuleFrag.Defs.{CapsuleFrag, cfrag_hash}
use nucypher_kms_umbral.Capsule.Defs.{Capsule}
use nucypher_kms_umbral.Capsule.Open.{is_seen, collect_set, open_reencrypted}
use nucypher_kms_umbral.Capsule.Collected.{Writable, hash_from, cfrag_hash-ok}
use nucypher_kms_umbral.Capsule.Seen.{Holds, is_seen-IsDecided, is_seen-Holds}

module _ ⦃lib : Backend⦄ ⦃bignum : BignumLaws⦄ ⦃curve : CurveLaws⦄ where
  abbrev pub Occurs : CapsuleFrag → List CapsuleFrag → Type 0
  Occurs c [] = ⊥
  Occurs c (t ∷ cfrags) = (t ≡ c) ⊎ Occurs c cfrags

  -- Some fragment stands twice in the list.
  abbrev pub IsRepeated : List CapsuleFrag → Type 0
  IsRepeated [] = ⊥
  IsRepeated (c ∷ cfrags) = Occurs c cfrags ⊎ IsRepeated cfrags

  -- The set is collected, with at most `bound` members.
  abbrev Collects : List (ℤ × CapsuleFrag) → List CapsuleFrag → ℕ → Type 0
  Collects seen cfrags bound =
      (found : List (ℤ × CapsuleFrag)) × (collect_set seen cfrags ≡ ok found)
      × (length found ≤ bound)

  module _ (c : CapsuleFrag) (w : Writable c) (seen : List (ℤ × CapsuleFrag))
      (cfrags : List CapsuleFrag) (bound : ℕ) where
    -- A fragment is added, or is left out because an equal one is in the set.
    collect_added :
        is_seen c (hash_from w.0) seen ≡ ok false
        → Collects ((hash_from w.0, c) ∷ seen) cfrags bound
        → Collects seen (c ∷ cfrags) bound
    unfolding collect_set
    collect_added e (found, run, small) = (found, rw (cfrag_hash-ok c w, e) run, small)

    collect_left_out :
        is_seen c (hash_from w.0) seen ≡ ok true
        → Collects seen cfrags bound
        → Collects seen (c ∷ cfrags) bound
    unfolding collect_set
    collect_left_out e (found, run, small) = (found, rw (cfrag_hash-ok c w, e) run, small)

  collect_bound :
      (seen : List (ℤ × CapsuleFrag)) (cfrags : List CapsuleFrag) (bound : ℕ)
      → All Writable cfrags
      → length seen + length cfrags ≤ bound
      → Collects seen cfrags bound
  unfolding collect_set
  collect_bound seen [] bound w h = (seen, refl, omega arith)
  collect_bound seen (c ∷ cfrags) bound (w, ws) h =
      elim (is_seen-IsDecided c (hash_from w.0) seen) [
        | inl e ↦
            collect_left_out c w seen cfrags bound e
              (collect_bound seen cfrags bound ws (omega arith))
        | inr e ↦
            collect_added c w seen cfrags bound e
              (collect_bound ((hash_from w.0, c) ∷ seen) cfrags bound ws (omega arith))
      ]

  -- A fragment that the set holds is not added again.
  collect_held :
      (c : CapsuleFrag) (seen : List (ℤ × CapsuleFrag)) (cfrags : List CapsuleFrag) (bound : ℕ)
      → All Writable cfrags
      → Holds c seen
      → Occurs c cfrags
      → length seen + length cfrags ≤ suc bound
      → Collects seen cfrags bound
  collect_held c seen [] bound w held o h = absurd o
  collect_held c seen (t ∷ cfrags) bound (w, ws) held o h =
      elim (is_seen-IsDecided t (hash_from w.0) seen) [
        | inl e ↦
            collect_left_out t w seen cfrags bound e
              (collect_bound seen cfrags bound ws (omega arith))
        | inr e ↦ collect_added t w seen cfrags bound e (elim o [
          | inl same ↦ absurd (cc (held_seen same, e))
          | inr o' ↦
              collect_held c ((hash_from w.0, t) ∷ seen) cfrags bound ws (inr held) o' (omega arith)
        ])
      ]
    where
      held_seen : t ≡ c → is_seen t (hash_from w.0) seen ≡ ok true
      held_seen same =
          ap (λ (x : CapsuleFrag). is_seen x (hash_from w.0) seen) same
          ∙ is_seen-Holds c (hash_from w.0) seen (ap cfrag_hash (sym same) ∙ cfrag_hash-ok t w) held

  collect_repeated :
      (seen : List (ℤ × CapsuleFrag)) (cfrags : List CapsuleFrag) (bound : ℕ)
      → All Writable cfrags
      → IsRepeated cfrags
      → length seen + length cfrags ≤ suc bound
      → Collects seen cfrags bound
  collect_repeated seen [] bound w r h = absurd r
  collect_repeated seen (c ∷ cfrags) bound (w, ws) r h =
      elim (is_seen-IsDecided c (hash_from w.0) seen) [
        | inl e ↦
            collect_left_out c w seen cfrags bound e
              (collect_bound seen cfrags bound ws (omega arith))
        | inr e ↦ collect_added c w seen cfrags bound e (elim r [
          | inl o ↦
              collect_held c ((hash_from w.0, c) ∷ seen) cfrags bound ws
                (inl (refl, cfrag_hash-ok c w)) o (omega arith)
          | inr r' ↦ collect_repeated ((hash_from w.0, c) ∷ seen) cfrags bound ws r' (omega arith)
        ])
      ]

  module _ (capsule : Capsule) (receiving_sk : SecretKey) (delegating_pk : PublicKey)
      (first : CapsuleFrag) (others : List CapsuleFrag) where
    -- If a fragment is given twice, `open_reencrypted` raises a ValueError, for any capsule and any
    -- keys, provided that the fragments can be written.
    pub open_reencrypted-repeated :
        All Writable (first ∷ others)
        → IsRepeated (first ∷ others)
        → open_reencrypted capsule receiving_sk delegating_pk (first ∷ others)
          ≡ err (value_error "Some of the CapsuleFrags are repeated")
    unfolding open_reencrypted
    open_reencrypted-repeated w r =
        refused (collect_repeated [] (first ∷ others) (length others) w r (omega arith))
      where
        refused :
            Collects [] (first ∷ others) (length others)
            → open_reencrypted capsule receiving_sk delegating_pk (first ∷ others)
              ≡ err (value_error "Some of the CapsuleFrags are repeated")
        refused (found, run, small) =
            let fewer : (length found == length (first ∷ others)) ≡ false = ground arith in
            rw (run, fewer) refl
