-- ===== src/Backend.antt =====
-- The third-party code of umbral: its operations, its documented behaviour, and the monad of code
-- that draws random numbers.
pub mod Interface
pub mod Laws
pub mod Random
