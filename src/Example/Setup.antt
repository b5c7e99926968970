-- ===== src/Example/Setup.antt =====
-- The objects that vectors/generate_test_vectors.py makes first and uses in all of its parts.
use nucypher_kms_umbral.Prelude.{ℕ, pos, true, List, [], ◌∷◌, Result, ok, err, index_error}
use nucypher_kms_umbral.Prelude.Bytes.{Bytes, b}
use nucypher_kms_umbral.Backend.Interface.{Backend}
use nucypher_kms_umbral.Backend.Random.{Random, lift, return, ◌>>=◌}
use nucypher_kms_umbral.Openssl.Curve.{Curve}
use nucypher_kms_umbral.CurveScalar.Defs.{CurveScalar}
use nucypher_kms_umbral.CurvePoint.Defs.{CurvePoint}
use nucypher_kms_umbral.Keys.Defs.{PublicKey, random_secret_key}
use nucypher_kms_umbral.Hashing.ToPoint.{Parameters}
use nucypher_kms_umbral.Capsule.Defs.{Capsule}
use nucypher_kms_umbral.KeyFrag.Defs.{VerifiedKeyFrag}
use nucypher_kms_umbral.CapsuleFrag.Defs.{CapsuleFrag}
use nucypher_kms_umbral.Pre.Defs.{SomeKeyFrag, encrypt, generate_kfrags, reencrypt}
use nucypher_kms_umbral.Example.Script.{reread}

-- `kfrags[0]`
unfoldable pub first : {A : Type 0} → List A → Result A
first [] = err index_error
first (x ∷ xs) = ok x

module _ ⦃lib : Backend⦄ ⦃CURVE : Curve⦄ where
  pub record Setup : Type 0 where
    pub verifying_pk : PublicKey
    pub delegating_pk : PublicKey
    pub receiving_pk : PublicKey
    pub kfrags : List VerifiedKeyFrag
    pub capsule : Capsule
    pub ciphertext : Bytes
    pub points : List CurvePoint
    pub z : CurveScalar

  -- The points of a capsule and of a fragment, in the order in which they are hashed.
  unfoldable pub points_of : Capsule → CapsuleFrag → List CurvePoint
  points_of capsule cfrag =
      capsule.point_e ∷ cfrag.point_e1 ∷ cfrag.proof.point_e2 ∷ capsule.point_v ∷ cfrag.point_v1
      ∷ cfrag.proof.point_v2 ∷ cfrag.proof.kfrag_commitment ∷ cfrag.proof.kfrag_pok ∷ []

  unfoldable pub setup : ⦃params : Parameters⦄ → ℕ → Random Setup
  unfolding random_secret_key generate_kfrags encrypt first reencrypt reread points_of
  setup fuel = random_secret_key >>= λ delegating_sk. random_secret_key >>= λ receiving_sk.
      random_secret_key >>= λ signing_sk.
      generate_kfrags fuel delegating_sk receiving_sk.public_key
        (record { secret_key = signing_sk }) (pos 6) (pos 10) true true
      >>= λ kfrags. encrypt delegating_sk.public_key (b "peace at dawn") >>= λ pair.
          lift (first kfrags) >>= λ kfrag.
          reencrypt pair.0 (SomeKeyFrag.verified kfrag) >>= λ vcfrag.
          lift (reread vcfrag) >>= λ cfrag. return (record {
            verifying_pk = signing_sk.public_key;
            delegating_pk = delegating_sk.public_key;
            receiving_pk = receiving_sk.public_key;
            kfrags = kfrags;
            capsule = pair.0;
            ciphertext = pair.1;
            points = points_of pair.0 cfrag;
            z = cfrag.proof.signature;
          })
