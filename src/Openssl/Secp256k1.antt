-- ===== src/Openssl/Secp256k1.antt =====
-- The curve that umbral/curve.py loads, `CURVE`, from the documented behaviour of OpenSSL.
use nucypher_kms_umbral.Prelude.{
  pos, ◌+◌, ◌/◌, ◌<◌, ◌≡◌, ok, err, not_implemented, arith, if◌then◌else◌, ap,
}
use nucypher_kms_umbral.Prelude.Bytes.{Bytes, b, ◌==b◌}
use nucypher_kms_umbral.Prelude.Residue.{Modulus}
use nucypher_kms_umbral.Backend.Interface.{Backend}
use nucypher_kms_umbral.Backend.Laws.{BignumLaws, CurveLaws}
use nucypher_kms_umbral.Openssl.Curve.{Curve, from_name, init, casefold}

module _ ⦃lib : Backend⦄ ⦃bignum : BignumLaws⦄ ⦃curve : CurveLaws⦄ where
  order_bn : lib.Bignum
  order_bn = lib.bn_of (pos curve.order)

  -- `SECP256K1` and `CURVE`
  instance abbrev pub secp256k1 : Curve
  secp256k1 = record {
    name = b "secp256k1";
    nid = 714;
    ec_group = curve.group;
    bn_order = lib.bn_of (pos curve.order);
    point_generator = curve.generator;
    field_element_size = (lib.ec_group_get_degree curve.group + 7) / 8;
    scalar_size = lib.bn_num_bytes (lib.bn_of (pos curve.order));
    order = pos curve.order;
  }

  pub order_pos : 0 < curve.order
  order_pos = omega (arith, curve.order_large)

  instance abbrev pub scalar_modulus : Modulus
  scalar_modulus = record { n = curve.order; positive = order_pos }

  pub init-secp256k1 : init 714 ≡ ok secp256k1
  unfolding init
  init-secp256k1 = rw (curve.by_name, curve.get_order, curve.get_generator, bignum.int_of_bn)

  -- `from_name` loads the curve if `casefold` of the name is `secp256k1`, and raises
  -- NotImplementedError for any other name.
  pub from_name_lem :
      (name : Bytes)
      → from_name name
        ≡ (if casefold name ==b b "secp256k1" then ok secp256k1 else err not_implemented)
  unfolding from_name
  from_name_lem name =
      ap (λ t. if casefold name ==b b "secp256k1" then t else err not_implemented) init-secp256k1
