-- ===== src/GameSession.antt =====
-- apps/game-session/src: the real-time authority over rooms and games.
pub mod Room
pub mod Words
pub mod Shuffle
pub mod Score
pub mod Ranking
pub mod Game
pub mod Guess
pub mod Invariant
pub mod Rooms
pub mod Handlers
pub mod Server
pub mod Protection
pub mod Occupancy
mod Tests
pub mod Auth
pub mod Config
