-- ===== src/Openssl.antt =====
-- umbral/openssl.py: the layer over OpenSSL. Allocation (`_bn_new`, `_point_new`, contexts, `gc`)
-- and the constant-time flag leave no trace in the values and are not modelled.
pub mod Bignum
pub mod Curve
pub mod Point
pub mod Ecdsa
pub mod Secp256k1
