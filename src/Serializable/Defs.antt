-- ===== src/Serializable/Defs.antt =====
-- The mixins of umbral/serializable.py as a record, `from_bytes`, `_split` and the booleans.
use nucypher_kms_umbral.Prelude.{
  ℕ, ◌+◌, ◌==◌, not, Bool, true, false, List, [], ◌∷◌, ◌++◌, Result, ok, err, length, if◌then◌else◌,
  value_error, raise_if, ◌>>=◌, ◌>>◌,
}
use nucypher_kms_umbral.Prelude.Bytes.{Bytes, ◌==b◌, slice}

-- `serialized_size`, `_from_exact_bytes` and `__bytes__` of a class.
pub record Serial (A : Type 0) : Type 0 where
  pub serialized_size : ℕ
  pub from_exact_bytes : Bytes → Result A
  pub to_bytes : A → Result Bytes

-- `Deserializable.from_bytes`
unfoldable pub from_bytes : {A : Type 0} → Serial A → Bytes → Result A
from_bytes cls bs = do
  let expected_size = cls.serialized_size
  raise_if (not (length bs == expected_size)) (value_error "Wrong number of bytes")
  cls.from_exact_bytes bs

-- A type in the list that `_split` is given.
pub record Component : Type 1 where
  pub Carrier : Type 0
  pub serial : Serial Carrier

abbrev pub Objects : List Component → Type 0
Objects [] = Unit
Objects (tp ∷ types) = tp.Carrier × Objects types

-- The loop of `_split`, from `pos` on.
unfoldable pub split_from : (types : List Component) → Bytes → ℕ → Result (Objects types)
split_from [] bs pos = ok tt
split_from (tp ∷ types) bs pos = do
  let size = tp.serial.serialized_size
  let chunk = slice bs pos (pos + size)
  obj ← tp.serial.from_exact_bytes chunk
  objs ← split_from types bs (pos + size)
  ok (obj, objs)

unfoldable pub split : (types : List Component) → Bytes → Result (Objects types)
unfolding split_from
split types bs = split_from types bs 0

-- `b''.join(bytes(comp) for comp in components)`
unfoldable pub join : (types : List Component) → Objects types → Result Bytes
join [] objs = ok []
join (tp ∷ types) (obj, objs) = do
  bs ← tp.serial.to_bytes obj
  rest ← join types objs
  ok (bs ++ rest)

-- `sum(tp.serialized_size() for tp in types)`
unfoldable pub total_size : List Component → ℕ
total_size [] = 0
total_size (tp ∷ types) = tp.serial.serialized_size + total_size types

unfoldable pub bool_serialized_size : ℕ
bool_serialized_size = 1

unfoldable pub bool_bytes : Bool → Bytes
bool_bytes flag = if flag then 1 ∷ [] else 0 ∷ []

unfoldable pub bool_from_exact_bytes : Bytes → Result Bool
bool_from_exact_bytes bs =
    if bs ==b (1 ∷ [])
    then ok true
    else if bs ==b (0 ∷ [])
    then ok false
    else err (value_error "Incorrectly serialized boolean")

-- `bool` among the types of `_split`.
unfoldable pub bool_serial : Serial Bool
unfolding bool_serialized_size bool_bytes bool_from_exact_bytes
bool_serial = record {
  serialized_size = bool_serialized_size;
  from_exact_bytes = bool_from_exact_bytes;
  to_bytes = λ flag. ok (bool_bytes flag);
}
