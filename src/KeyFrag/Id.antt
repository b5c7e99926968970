-- ===== src/KeyFrag/Id.antt =====
-- The class `KeyFragID` of umbral/key_frag.py.
use nucypher_kms_umbral.Prelude.{ℕ, Bool, ok}
use nucypher_kms_umbral.Prelude.Bytes.{Bytes, ◌==b◌}
use nucypher_kms_umbral.Backend.Interface.{Backend}
use nucypher_kms_umbral.Backend.Random.{Random, return, ◌>>=◌ as ◌>>=ᵣ◌}
use nucypher_kms_umbral.Serializable.Defs.{Serial}

pub record KeyFragId : Type 0 where
  pub id : Bytes

abbrev pub id_size : ℕ
id_size = 32

-- `KeyFragID.__eq__`
unfoldable pub id_eq : KeyFragId → KeyFragId → Bool
id_eq self other = self.id ==b other.id

unfoldable pub id_serial : Serial KeyFragId
id_serial = record {
  serialized_size = id_size;
  from_exact_bytes = λ bs. ok (record { id = bs });
  to_bytes = λ self. ok self.id;
}

module _ ⦃lib : Backend⦄ where
  -- `KeyFragID.random`
  unfoldable pub random_id : Random KeyFragId
  random_id = (λ rng. ok (lib.urandom id_size rng)) >>=ᵣ λ bs. return (record { id = bs })
