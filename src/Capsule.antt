-- ===== src/Capsule.antt =====
-- umbral/capsule.py: the encapsulated key, made from a public key and opened by its owner or,
-- from re-encrypted fragments, by a delegate.
pub mod Defs
pub mod Open
pub mod Combine
pub mod Original
pub mod Collected
pub mod Seen
pub mod Members
pub mod Refused
pub mod Set
pub mod Inconsistent
pub mod Reencrypted
pub mod Fragments
pub mod Proxied
pub mod RoundTrip
pub mod Checked
