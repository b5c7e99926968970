-- ===== src/Pre/Defs.antt =====
-- The functions of umbral/pre.py. Where the code checks by `isinstance` that a fragment was
-- verified, the argument is a value of one of the two classes.
use nucypher_kms_umbral.Prelude.{
  ℕ, ℤ, pos_part, ltb_ℤ, Bool, List, map, none, Result, ok, err, type_error, value_error, traverse,
  raise_if, ◌>>=◌,
}
use nucypher_kms_umbral.Prelude.Bytes.{Bytes}
use nucypher_kms_umbral.Backend.Interface.{Backend}
use nucypher_kms_umbral.Backend.Random.{Random, lift, return, repeat, ◌>>=◌ as ◌>>=ᵣ◌}
use nucypher_kms_umbral.Openssl.Curve.{Curve}
use nucypher_kms_umbral.CurvePoint.Defs as CurvePoint
use nucypher_kms_umbral.Dem.Defs as Dem
use nucypher_kms_umbral.Keys.Defs.{PublicKey, SecretKey}
use nucypher_kms_umbral.Signing.Defs.{Signer}
use nucypher_kms_umbral.Hashing.ToPoint.{Parameters}
use nucypher_kms_umbral.Capsule.Defs.{Capsule, capsule_bytes, from_public_key, open_original}
use nucypher_kms_umbral.Capsule.Open.{open_reencrypted}
use nucypher_kms_umbral.KeyFrag.Defs.{KeyFrag, VerifiedKeyFrag}
use nucypher_kms_umbral.KeyFrag.Generate.{key_frag_base, kfrag_from_base}
use nucypher_kms_umbral.CapsuleFrag.Defs.{CapsuleFrag, VerifiedCapsuleFrag, reencrypted}

module _ ⦃lib : Backend⦄ where
  pub data SomeKeyFrag : Type 0 where
    unverified : KeyFrag → SomeKeyFrag
    verified : VerifiedKeyFrag → SomeKeyFrag

  pub data SomeCapsuleFrag : Type 0 where
    unverified : CapsuleFrag → SomeCapsuleFrag
    verified : VerifiedCapsuleFrag → SomeCapsuleFrag

  -- The check of one member of `verified_cfrags`, and its `cfrag`.
  unfoldable pub checked_cfrag : SomeCapsuleFrag → Result CapsuleFrag
  checked_cfrag (SomeCapsuleFrag.unverified cfrag) =
      err (type_error "All CapsuleFrags must be verified before decryption")
  checked_cfrag (SomeCapsuleFrag.verified vcfrag) = ok vcfrag.cfrag

module _ ⦃lib : Backend⦄ ⦃CURVE : Curve⦄ where
  unfoldable pub encrypt : PublicKey → Bytes → Random (Capsule × Bytes)
  unfolding from_public_key CurvePoint.to_bytes capsule_bytes Dem.init Dem.encrypt
  encrypt delegating_pk plaintext = from_public_key delegating_pk >>=ᵣ λ pair.
      lift (CurvePoint.to_bytes pair.1) >>=ᵣ λ seed_bytes.
      lift (capsule_bytes pair.0) >>=ᵣ λ authenticated_data.
      Dem.encrypt (Dem.init seed_bytes none none) plaintext authenticated_data >>=ᵣ λ ciphertext.
      return (pair.0, ciphertext)

  unfoldable pub decrypt_original : SecretKey → Capsule → Bytes → Result Bytes
  unfolding open_original CurvePoint.to_bytes capsule_bytes Dem.init Dem.decrypt
  decrypt_original delegating_sk capsule ciphertext = do
    key_seed ← open_original capsule delegating_sk
    seed_bytes ← CurvePoint.to_bytes key_seed
    authenticated_data ← capsule_bytes capsule
    Dem.decrypt (Dem.init seed_bytes none none) ciphertext authenticated_data

  unfoldable pub decrypt_reencrypted :
      SecretKey → PublicKey → Capsule → List SomeCapsuleFrag → Bytes → Result Bytes
  unfolding checked_cfrag traverse open_reencrypted CurvePoint.to_bytes capsule_bytes Dem.init
      Dem.decrypt
  decrypt_reencrypted receiving_sk delegating_pk capsule verified_cfrags ciphertext = do
    cfrags ← traverse checked_cfrag verified_cfrags
    key_seed ← open_reencrypted capsule receiving_sk delegating_pk cfrags
    seed_bytes ← CurvePoint.to_bytes key_seed
    authenticated_data ← capsule_bytes capsule
    Dem.decrypt (Dem.init seed_bytes none none) ciphertext authenticated_data

  module _ ⦃params : Parameters⦄ where
    unfoldable pub generate_kfrags :
        ℕ → SecretKey → PublicKey → Signer → ℤ → ℤ → Bool → Bool → Random (List VerifiedKeyFrag)
    unfolding key_frag_base kfrag_from_base repeat
    generate_kfrags fuel delegating_sk receiving_pk signer threshold num_kfrags sign_delegating_key
          sign_receiving_key =
        key_frag_base fuel delegating_sk receiving_pk signer threshold >>=ᵣ λ base.
        lift (
          raise_if (ltb_ℤ num_kfrags threshold)
            (value_error "Creating less kfrags than threshold makes them useless"))
        >>=ᵣ λ _.
            repeat (pos_part num_kfrags)
              (kfrag_from_base base sign_delegating_key sign_receiving_key)
            >>=ᵣ λ kfrags. return (map (λ (kfrag : KeyFrag). record { kfrag = kfrag }) kfrags)

    unfoldable pub reencrypt : Capsule → SomeKeyFrag → Random VerifiedCapsuleFrag
    unfolding reencrypted
    reencrypt capsule (SomeKeyFrag.unverified kfrag) =
        lift (err (type_error "KeyFrag must be verified before reencryption"))
    reencrypt capsule (SomeKeyFrag.verified vkfrag) =
        reencrypted capsule vkfrag.kfrag >>=ᵣ λ cfrag. return (record { cfrag = cfrag })
