-- ===== src/Shared.antt =====
-- packages/shared/src/index.ts: the contract between the services.
pub mod Protocol
pub mod Account
pub mod Answer
pub mod RoomCode
mod Tests
