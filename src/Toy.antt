-- ===== src/Toy.antt =====
-- A small instance of the third-party code, which satisfies the laws.
pub mod Group
pub mod Numbers
pub mod Code
pub mod Laws
