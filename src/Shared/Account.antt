-- ===== src/Shared/Account.antt =====
-- packages/shared/src/index.ts: room assignment, accounts, and what is read back of the histories.
-- Identifiers of users and games are UUIDs that the code only compares, here numbers; a date is its
-- number of milliseconds.
use gacha_mind.Base.{ℕ, ◌*◌, Text, codes, List, Option}
use gacha_mind.Shared.Protocol.{GamePhase}

pub record RoomAssignment : Type 0 where
  pub room_id : Text
  pub shard : Text

pub data AssignMode : Type 0 where
  create match : AssignMode

pub record RoomProjection : Type 0 where
  pub shard : Text
  pub capacity : ℕ
  pub player_count : ℕ
  pub phase : GamePhase

pub record RoomSummary : Type 0 where
  pub room_id : Text
  pub shard : Text
  pub capacity : ℕ
  pub player_count : ℕ
  pub phase : GamePhase

pub record SessionLoad : Type 0 where
  pub shard : Text
  pub host : Text
  pub port : ℕ
  pub rooms : ℕ
  pub connections : ℕ

abbrev pub max_nickname_length : ℕ
max_nickname_length = 20

abbrev pub max_password_length : ℕ
max_password_length = 72

abbrev pub session_cookie_name : Text
session_cookie_name = codes "gachamind_session"

abbrev pub session_ttl_seconds : ℕ
session_ttl_seconds = 7 * 24 * 60 * 60

pub record SessionTokenPayload : Type 0 where
  pub sub : ℕ
  pub username : Text
  pub nickname : Text

pub record AuthUser : Type 0 where
  pub id : ℕ
  pub username : Text
  pub nickname : Text

pub record AuthResponse : Type 0 where
  pub access_token : Text
  pub user : AuthUser

pub record GameResultPlayer : Type 0 where
  pub player_id : ℕ
  pub user_id : Option ℕ
  pub nickname : Text
  pub score : ℕ
  pub rank : ℕ

pub record GameFinishedEvent : Type 0 where
  pub game_id : ℕ
  pub room_id : Text
  pub finished_at : ℕ
  pub rounds_played : ℕ
  pub players : List GameResultPlayer

pub record PlayerStats : Type 0 where
  pub games_played : ℕ
  pub wins : ℕ
  pub total_score : ℕ
  pub best_score : ℕ
  pub last_played_at : Option ℕ

pub record PlayerGameRecord : Type 0 where
  pub game_id : ℕ
  pub room_id : Text
  pub finished_at : ℕ
  pub rounds_played : ℕ
  pub player_count : ℕ
  pub score : ℕ
  pub rank : ℕ
