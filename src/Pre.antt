-- ===== src/Pre.antt =====
-- umbral/pre.py: the public interface of the scheme.
pub mod Defs
pub mod Original
pub mod Generated
pub mod Shares
pub mod Delegated
pub mod Reencrypted
