-- ===== src/Clients.antt =====
-- The clients of the transfer services, internal/providers.
pub mod WeTransfer
pub mod SendGb
pub mod SendSpace
pub mod TransferNow
pub mod Wesendit
pub mod Services
