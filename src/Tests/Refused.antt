-- ===== src/Tests/Refused.antt =====
-- What `open_reencrypted` refuses, at concrete inputs.
use nucypher_kms_umbral.Prelude.{
  List, ok, ℤ, ◌↔◌, ℕ, ◌≡◌, ◌≢◌, refl, ap, inl, inr, [], ◌∷◌, err, value_error, arith,
}
use nucypher_kms_umbral.Prelude.Residue.{Residue, residue}
use nucypher_kms_umbral.Openssl.Secp256k1.{secp256k1, scalar_modulus}
use nucypher_kms_umbral.CurvePoint.Arithmetic.{pt, smul}
use nucypher_kms_umbral.CurvePoint.Defs.{CurvePoint}
use nucypher_kms_umbral.Keys.Pairs.{public_of, key_of}
use nucypher_kms_umbral.KeyFrag.Id.{KeyFragId}
use nucypher_kms_umbral.CapsuleFrag.Defs.{CapsuleFrag}
use nucypher_kms_umbral.Capsule.Original.{capsule_of}
use nucypher_kms_umbral.Capsule.Open.{collect_set, open_reencrypted}
use nucypher_kms_umbral.Capsule.Collected.{Writable, proof_bytes-Writable}
use nucypher_kms_umbral.Capsule.Refused.{Occurs, open_reencrypted-repeated}
use nucypher_kms_umbral.Capsule.Set.{Member, AllDifferent, collect_set-AllDifferent}
use nucypher_kms_umbral.Capsule.Inconsistent.{open_reencrypted-inconsistent}
use nucypher_kms_umbral.Toy.Group.{multiple}
use nucypher_kms_umbral.Toy.Code.{toy}
use nucypher_kms_umbral.Toy.Laws.{
  toy_numbers, toy_curve, toy_encoding, toy_ecdsa, toy_aead, toy_random,
}
use nucypher_kms_umbral.Tests.Data.{
  delegate, id_one, id_two, encryption, fragment, proof, proof_encoding, proof_written,
}

abbrev written : (c : KeyFragId) (x : Residue) → Writable (fragment c x)
written c x = proof_bytes-Writable (fragment c x) proof_encoding proof_written

open_reencrypted-repeated_example :
    open_reencrypted
      (capsule_of encryption.r encryption.u encryption.h)
      (key_of delegate)
      (public_of (residue 3))
      (fragment id_one (residue 0) ∷ fragment id_two (residue 1) ∷ fragment id_one (residue 0) ∷ [])
    ≡ err (value_error "Some of the CapsuleFrags are repeated")
open_reencrypted-repeated_example =
    open_reencrypted-repeated (capsule_of encryption.r encryption.u encryption.h) (key_of delegate)
      (public_of (residue 3)) (fragment id_one (residue 0))
      (fragment id_two (residue 1) ∷ fragment id_one (residue 0) ∷ [])
      (written id_one (residue 0), (written id_two (residue 1), (written id_one (residue 0), tt)))
      (inl (inr (inl refl)))

-- A fragment of another delegation.
abbrev stranger : CapsuleFrag
stranger = record {
  point_e1 = pt toy_curve.generator;
  point_v1 = pt toy_curve.generator;
  kfrag_id = id_two;
  precursor = pt toy_curve.generator;
  proof = proof;
}

ids_differ : id_one ≢ id_two
ids_differ e = omega (arith, ap first_byte e)
  where
    first_byte : KeyFragId → ℕ
    first_byte i = elim i.id [ [] ↦ 0 | x ∷ xs ↦ x ]

precursors_differ : pt toy_curve.generator ≢ (fragment id_one (residue 0)).precursor
unfolding smul multiple residue
precursors_differ e = omega (arith, ap (λ (p : CurvePoint). p.backend_point.0) e)

open_reencrypted-inconsistent_example :
    open_reencrypted
      (capsule_of encryption.r encryption.u encryption.h)
      (key_of delegate)
      (public_of (residue 3))
      (fragment id_one (residue 0) ∷ stranger ∷ [])
    ≡ err (value_error "CapsuleFrags are not pairwise consistent")
open_reencrypted-inconsistent_example =
    open_reencrypted-inconsistent (capsule_of encryption.r encryption.u encryption.h)
      (key_of delegate) (public_of (residue 3)) (fragment id_one (residue 0)) (stranger ∷ [])
      (written id_one (residue 0), (proof_bytes-Writable stranger proof_encoding proof_written, tt))
      ((ids_differ, tt), (tt, tt)) (inl precursors_differ)

abbrev given : List CapsuleFrag
given = fragment id_one (residue 0) ∷ fragment id_two (residue 1) ∷ fragment id_one (residue 0) ∷ []

collect_set-AllDifferent_example :
    (found : List (ℤ × CapsuleFrag)) × (collect_set [] given ≡ ok found)
    × AllDifferent found
    × ((c : CapsuleFrag) → Member c found ↔ Occurs c given)
collect_set-AllDifferent_example =
    collect_set-AllDifferent given
      (written id_one (residue 0), (written id_two (residue 1), (written id_one (residue 0), tt)))
