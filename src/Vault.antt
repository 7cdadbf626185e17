-- ===== src/Vault.antt =====
-- vault.py and _vault_frame.py: the acts on the seal of a store or a vault, and the statements of a vault.
pub mod Frame
pub mod ReadBack
pub mod Status
pub mod Statements
pub mod Operations
mod Tests
