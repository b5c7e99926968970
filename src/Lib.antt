-- ===== src/Lib.antt =====
-- Umbral, a threshold proxy re-encryption scheme (the Python package in umbral/).
--
-- The owner of a key pair encrypts a plaintext into a capsule and a ciphertext. To let a delegate
-- read it, the owner shares a re-encryption key among proxies, as key fragments. A proxy turns the
-- capsule with its fragment into a capsule fragment, and from as many as the threshold the
-- delegate opens the capsule. The package builds this on OpenSSL and a cipher:
--
--   umbral/openssl.py          Openssl        curve, bignums, points and ECDSA over OpenSSL
--   umbral/curve.py            Openssl/Secp256k1   the curve that is loaded
--   umbral/serializable.py     Serializable   constant-size objects, cut and joined
--   umbral/curve_scalar.py     CurveScalar    scalars modulo the order
--   umbral/curve_point.py      CurvePoint     points
--   umbral/hashing.py          Hash, Hashing  SHA-256 with domain separation, hashing to points
--   umbral/params.py           Hashing/ToPoint
--   umbral/dem.py              Dem            key derivation and encryption of the data
--   umbral/keys.py             Keys           key pairs and the factory of keys
--   umbral/signing.py          Signing        signers and signatures
--   umbral/key_frag.py         KeyFrag        fragments of the re-encryption key
--   umbral/capsule.py          Capsule        the capsule, opened by the owner or a delegate
--   umbral/capsule_frag.py     CapsuleFrag    re-encrypted fragments and their proofs
--   umbral/pre.py              Pre            the public interface
--   umbral/errors.py           Prelude/Except exceptions as values
--   docs/examples/umbral_simple_api.py    Example/Script    the example script
--   vectors/generate_test_vectors.py      Example/Setup, Operations, Vectors   test vectors
--
-- In each folder `Defs` (for a larger part also `Open`, `Generate`, `Id`, `ToPoint`) holds the
-- definitions under the source's names; the other files hold theorems. `Scheme` is the algebra of
-- secret sharing over a ring of residues, without the program. `Prelude` has the shared types.
--
-- The third-party code is the record `Backend` (Backend/Interface): OpenSSL, HKDF, SHA-256, the
-- cipher and `os.urandom`. What the theorems rely on is stated as records of laws in Backend/Laws,
-- and Toy has a small instance of all of them: the group of integers modulo 7, a counter as the
-- source of randomness and a cipher that appends a tag. The theorems are run on it in Tests.
--
-- Code that raises returns a `Result`; code that draws random numbers is a function of the source
-- of randomness (Backend/Random). The loop `while True` of `KeyFragBase.__init__` takes fuel for
-- its rounds; it draws again only if a hash is zero modulo the order, and gives `out_of_fuel` if
-- that happens in every round. `unsafe_hash_to_point` has the source's own bound of 2 ** 32 rounds.
--
-- Not modelled: memory management and contexts of OpenSSL, the package's metadata, the JSON
-- files of the test vectors, the notebook, and the texts.
pub mod Prelude
pub mod Backend
pub mod Openssl
pub mod Serializable
pub mod Hash
pub mod CurveScalar
pub mod CurvePoint
pub mod Dem
pub mod Example
pub mod Keys
pub mod Signing
pub mod KeyFrag
pub mod Hashing
pub mod Capsule
pub mod CapsuleFrag
pub mod Pre
pub mod Scheme
pub mod Toy
pub mod Tests
