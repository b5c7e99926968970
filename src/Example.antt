-- ===== src/Example.antt =====
-- docs/examples/umbral_simple_api.py, the script that shows the whole interface, and
-- vectors/generate_test_vectors.py, which makes the test vectors.
pub mod Script
pub mod Reread
pub mod Granted
pub mod Run
pub mod Vectors
pub mod Deserialized
pub mod Operations
pub mod Ring
pub mod Setup
