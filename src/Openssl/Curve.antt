-- ===== src/Openssl/Curve.antt =====
-- The class `Curve` of umbral/openssl.py. A name is its code points.
use nucypher_kms_umbral.Prelude.{
  ℕ, ℤ, ◌+◌, ◌/◌, ◌&&◌, leb, ◌==◌, Bool, Option, none, some, Result, ok, err, List, [], ◌∷◌, ◌++◌,
  if◌then◌else◌, openssl_assert, not_implemented, ◌>>=◌,
}
use nucypher_kms_umbral.Prelude.Bytes.{Bytes, b, ◌==b◌}
use nucypher_kms_umbral.Backend.Interface.{Backend}
use nucypher_kms_umbral.Openssl.Bignum.{bn_size, bn_to_int}

-- `_supported_curves`
unfoldable pub supported_curves : List (ℕ × Bytes)
supported_curves = (714, b "secp256k1") ∷ []

-- `_supported_curves[nid]`, `none` for a KeyError.
unfoldable pub curve_name : List (ℕ × Bytes) → ℕ → Option Bytes
curve_name [] nid = none
curve_name ((key, name) ∷ curves) nid = if key == nid then some name else curve_name curves nid

lookup : List (ℕ × Bytes) → ℕ → Option Bytes
lookup [] code = none
lookup ((key, chars) ∷ rest) code = if key == code then some chars else lookup rest code

-- `str.casefold` on one code point, where the result is ASCII. Every other code point is left alone:
-- what Python makes of it has a character that is not ASCII, as the code point itself, so it equals
-- no name of a supported curve either way.
folded : List (ℕ × Bytes)
folded =
    (383, b "s")
    ∷ (8490, b "k")
    ∷ (223, b "ss")
    ∷ (7838, b "ss")
    ∷ (64256, b "ff")
    ∷ (64257, b "fi")
    ∷ (64258, b "fl")
    ∷ (64259, b "ffi")
    ∷ (64260, b "ffl")
    ∷ (64261, b "st")
    ∷ (64262, b "st")
    ∷ []

fold_ascii : ℕ → ℕ
fold_ascii c = if leb 65 c && leb c 90 then c + 32 else c

unfoldable pub fold_char : ℕ → Bytes
unfolding folded fold_ascii lookup
fold_char c = elim (lookup folded c) [ none ↦ fold_ascii c ∷ [] | some chars ↦ chars ]

-- `name.casefold()`
unfoldable pub casefold : Bytes → Bytes
unfolding fold_char
casefold [] = []
casefold (c ∷ name) = fold_char c ++ casefold name

module _ ⦃lib : Backend⦄ where
  pub record Curve : Type 0 where
    pub name : Bytes
    pub nid : ℕ
    pub ec_group : lib.Group
    pub bn_order : lib.Bignum
    pub point_generator : lib.Point
    pub field_element_size : ℕ
    pub scalar_size : ℕ
    pub order : ℤ

  -- The body of `__init__` once the name is known.
  unfoldable pub init_named : ℕ → Bytes → Result Curve
  unfolding bn_size bn_to_int
  init_named nid name = do
    ec_group ← openssl_assert (lib.ec_group_new_by_curve_name nid)
    bn_order ← openssl_assert (lib.ec_group_get_order ec_group)
    point_generator ← openssl_assert (lib.ec_group_get0_generator ec_group)
    let size_in_bits = lib.ec_group_get_degree ec_group
    ok (record {
      name = name;
      nid = nid;
      ec_group = ec_group;
      bn_order = bn_order;
      point_generator = point_generator;
      field_element_size = (size_in_bits + 7) / 8;
      scalar_size = bn_size bn_order;
      order = bn_to_int bn_order;
    })

  -- `Curve(nid)`
  unfoldable pub init : ℕ → Result Curve
  unfolding init_named curve_name supported_curves
  init nid = elim (curve_name supported_curves nid) [
    | none ↦ err not_implemented
    | some name ↦ init_named nid name
  ]

  -- The loop of `from_name` over the supported curves.
  unfoldable pub find_by_name : Bytes → List (ℕ × Bytes) → Result Curve
  unfolding init
  find_by_name name [] = err not_implemented
  find_by_name name ((supported_nid, supported_name) ∷ curves) =
      if name ==b supported_name then init supported_nid else find_by_name name curves

  unfoldable pub from_name : Bytes → Result Curve
  unfolding find_by_name casefold supported_curves
  from_name name = find_by_name (casefold name) supported_curves

  -- `Curve.__eq__`
  unfoldable pub curve_eq : Curve → Curve → Bool
  curve_eq self other = self.nid == other.nid
