-- ===== src/Capsule/Set.antt =====
-- The set of `open_reencrypted` is the mathematical set of the fragments that are given.
use nucypher_kms_umbral.Prelude.{
  ◌≡◌, ◌↔◌, refl, sym, ap, ◌∙◌, ◌⊎◌, inl, inr, Bool-cases, true, false, ℤ, ◌==ℤ◌, List, [], ◌∷◌, ok,
  All,
}
use mathlib.Core.Path.{subst}
use nucypher_kms_umbral.Backend.Interface.{Backend}
use nucypher_kms_umbral.Backend.Laws.{BignumLaws, CurveLaws}
use nucypher_kms_umbral.Openssl.Secp256k1.{secp256k1}
use nucypher_kms_umbral.CapsuleFrag.Defs.{CapsuleFrag, cfrag_hash}
use nucypher_kms_umbral.Capsule.Open.{is_seen, collect_set}
use nucypher_kms_umbral.Capsule.Collected.{Writable, hash_from, cfrag_hash-ok}
use nucypher_kms_umbral.Capsule.Seen.{cfrag_eq-IsDecided, Holds, is_seen-IsDecided, is_seen-Holds}
use nucypher_kms_umbral.Capsule.Members.{cfrag_same}
use nucypher_kms_umbral.Capsule.Refused.{Occurs}

module _ ⦃lib : Backend⦄ ⦃bignum : BignumLaws⦄ ⦃curve : CurveLaws⦄ where
  abbrev pub Member : CapsuleFrag → List (ℤ × CapsuleFrag) → Type 0
  Member c [] = ⊥
  Member c ((hash, other) ∷ seen) = (other ≡ c) ⊎ Member c seen

  -- No fragment stands twice in the set.
  abbrev pub AllDifferent : List (ℤ × CapsuleFrag) → Type 0
  AllDifferent [] = Unit
  AllDifferent ((hash, c) ∷ seen) = (¬ Member c seen) × AllDifferent seen

  -- Every member stands under its hash.
  abbrev Hashed : List (ℤ × CapsuleFrag) → Type 0
  Hashed [] = Unit
  Hashed ((hash, c) ∷ seen) = (cfrag_hash c ≡ ok hash) × Hashed seen

  Member-Holds :
      (c : CapsuleFrag) (seen : List (ℤ × CapsuleFrag)) → Hashed seen → Member c seen → Holds c seen
  Member-Holds c [] h m = m
  Member-Holds c ((hash, other) ∷ seen) (e, h) (inl same) = inl (same, ap cfrag_hash (sym same) ∙ e)
  Member-Holds c ((hash, other) ∷ seen) (e, h) (inr m) = inr (Member-Holds c seen h m)

  is_seen-true :
      (c : CapsuleFrag) (hash : ℤ) (seen : List (ℤ × CapsuleFrag))
      → is_seen c hash seen ≡ ok true
      → Member c seen
  unfolding is_seen
  is_seen-true c hash [] e = cc
  is_seen-true c hash ((other_hash, other) ∷ seen) e = elim (Bool-cases (hash ==ℤ other_hash)) [
    | inr differs ↦ inr (is_seen-true c hash seen (sym (rw differs refl) ∙ e))
    | inl equals ↦ elim (cfrag_eq-IsDecided other c) [
      | inl same ↦ inl (cfrag_same other c same)
      | inr differs ↦ inr (is_seen-true c hash seen (sym (rw (equals, differs) refl) ∙ e))
    ]
  ]

  -- The set is asked rightly.
  is_seen-Member :
      (c : CapsuleFrag) (hash : ℤ) (seen : List (ℤ × CapsuleFrag))
      → Hashed seen
      → cfrag_hash c ≡ ok hash
      → ((is_seen c hash seen ≡ ok true) × Member c seen)
        ⊎ ((is_seen c hash seen ≡ ok false) × ¬ Member c seen)
  is_seen-Member c hash seen h e = elim (is_seen-IsDecided c hash seen) [
    | inl t ↦ inl (t, is_seen-true c hash seen t)
    | inr f ↦ inr (f, λ m. cc (is_seen-Holds c hash seen e (Member-Holds c seen h m), f))
  ]

  abbrev Collected : List (ℤ × CapsuleFrag) → List CapsuleFrag → Type 0
  Collected seen cfrags =
      (found : List (ℤ × CapsuleFrag)) × (collect_set seen cfrags ≡ ok found)
      × AllDifferent found
      × ((c : CapsuleFrag) → Member c found ↔ (Member c seen ⊎ Occurs c cfrags))

  collect_from :
      (seen : List (ℤ × CapsuleFrag)) (cfrags : List CapsuleFrag)
      → All Writable cfrags
      → Hashed seen
      → AllDifferent seen
      → Collected seen cfrags
  unfolding collect_set
  collect_from seen [] w h d = (seen, refl, d, λ c. (λ m. inl m, only c))
    where
      only : (c : CapsuleFrag) → Member c seen ⊎ Occurs c [] → Member c seen
      only c (inl m) = m
      only c (inr o) = absurd o
  collect_from seen (t ∷ cfrags) (w, ws) h d =
      elim (is_seen-Member t (hash_from w.0) seen h (cfrag_hash-ok t w)) [
        | inl (e, m) ↦
            let (found, run, all, iff) = collect_from seen cfrags ws h d in
            (
              found,
              rw (cfrag_hash-ok t w, e) run,
              all,
              λ c. (λ i. held c ((iff c).0 i), λ i. (iff c).1 (drop_held c m i)),
            )
        | inr (e, new) ↦
            let (found, run, all, iff) =
              collect_from ((hash_from w.0, t) ∷ seen) cfrags ws (cfrag_hash-ok t w, h) (new, d) in
            (
              found,
              rw (cfrag_hash-ok t w, e) run,
              all,
              λ c. (λ i. moved c ((iff c).0 i), λ i. (iff c).1 (moved_back c i)),
            )
      ]
    where
      held :
          (c : CapsuleFrag)
          → Member c seen ⊎ Occurs c cfrags
          → Member c seen ⊎ Occurs c (t ∷ cfrags)
      held c (inl m) = inl m
      held c (inr o) = inr (inr o)

      drop_held :
          (c : CapsuleFrag)
          → Member t seen
          → Member c seen ⊎ Occurs c (t ∷ cfrags)
          → Member c seen ⊎ Occurs c cfrags
      drop_held c m (inl i) = inl i
      drop_held c m (inr (inl same)) = inl (subst (λ x. Member x seen) same m)
      drop_held c m (inr (inr o)) = inr o

      moved :
          (c : CapsuleFrag)
          → Member c ((hash_from w.0, t) ∷ seen) ⊎ Occurs c cfrags
          → Member c seen ⊎ Occurs c (t ∷ cfrags)
      moved c (inl (inl same)) = inr (inl same)
      moved c (inl (inr m)) = inl m
      moved c (inr o) = inr (inr o)

      moved_back :
          (c : CapsuleFrag)
          → Member c seen ⊎ Occurs c (t ∷ cfrags)
          → Member c ((hash_from w.0, t) ∷ seen) ⊎ Occurs c cfrags
      moved_back c (inl m) = inl (inr m)
      moved_back c (inr (inl same)) = inl (inl same)
      moved_back c (inr (inr o)) = inr o

  -- For fragments that can be written, the set succeeds whatever the hash function does, no
  -- fragment is in it twice, and its members are exactly the fragments that are given.
  pub collect_set-AllDifferent :
      (cfrags : List CapsuleFrag)
      → All Writable cfrags
      → (found : List (ℤ × CapsuleFrag)) × (collect_set [] cfrags ≡ ok found)
        × AllDifferent found
        × ((c : CapsuleFrag) → Member c found ↔ Occurs c cfrags)
  collect_set-AllDifferent cfrags w =
      let (found, run, all, iff) = collect_from [] cfrags w tt tt in
      (
        found,
        run,
        all,
        λ c. (λ m. elim ((iff c).0 m) [ inl i ↦ absurd i | inr o ↦ o ], λ o. (iff c).1 (inr o)),
      )
