-- ===== src/Tests.antt =====
-- The theorems at concrete inputs, over the small instance of the third-party code.
mod Checked
mod Data
mod Delegation
mod Keys
mod Primitives
mod Protocol
mod Reencryption
mod Refused
mod Script
mod Serialization
