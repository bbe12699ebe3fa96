-- ===== src/Shared.antt =====
-- wfc_shared/wfc_shared: the words that every component shares.
pub mod Status
pub mod Commands
pub mod Texts
