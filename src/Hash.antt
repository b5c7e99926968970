-- ===== src/Hash.antt =====
-- The class `Hash` of umbral/hashing.py. `update` is given bytes; a caller that passes a
-- serializable object converts it first, as `bytes(data)` does.
use nucypher_kms_umbral.Prelude.{Option, none, some, ◌++◌, Result, ok, length, ◌>>=◌}
use nucypher_kms_umbral.Prelude.Bytes.{Bytes, to_bytes}
use nucypher_kms_umbral.Backend.Interface.{Backend}

module _ ⦃lib : Backend⦄ where
  pub record Hash : Type 0 where
    pub hash : lib.HashContext

  unfoldable pub update : Hash → Bytes → Hash
  update self bs = record { hash = lib.hash_update self.hash bs }

  -- `Hash(dst)`
  unfoldable pub init : Option Bytes → Result Hash
  unfolding update
  init none = ok (record { hash = lib.hash_new })
  init (some dst) = do
    len_dst ← to_bytes (length dst) 4
    ok (update (record { hash = lib.hash_new }) (len_dst ++ dst))

  unfoldable pub finalize : Hash → Bytes
  finalize self = lib.hash_finalize self.hash
