-- ===== src/UserService.antt =====
-- apps/user/src: the service that owns the accounts and the histories of games.
pub mod History
pub mod Accounts
pub mod Games
pub mod Leaderboard
pub mod Profile
mod Tests
