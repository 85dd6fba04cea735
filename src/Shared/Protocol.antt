-- ===== src/Shared/Protocol.antt =====
-- packages/shared/src/index.ts: the messages between a browser and a game session.
-- Player identifiers are UUIDs that the code only compares, here numbers; a coordinate and a width
-- are carried as numbers that nothing but `clamp_width` of the server reads.
use gacha_mind.Base.{ℕ, Text, List, Option}

abbrev pub default_room_capacity : ℕ
default_room_capacity = 100

abbrev pub round_duration_ms : ℕ
round_duration_ms = 60000

abbrev pub min_players_to_start : ℕ
min_players_to_start = 2

abbrev pub max_rounds : ℕ
max_rounds = 10

pub data GamePhase : Type 0 where
  waiting playing ended : GamePhase

pub record PlayerSummary : Type 0 where
  pub id : ℕ
  pub nickname : Text
  pub score : ℕ

pub record Point : Type 0 where
  pub x : ℕ
  pub y : ℕ

pub record StrokeSegment : Type 0 where
  pub points : List Point
  pub color : Text
  pub width : ℕ

pub record RoomStateMessage : Type 0 where
  pub room_id : Text
  pub you : PlayerSummary
  pub players : List PlayerSummary
  pub capacity : ℕ
  pub phase : GamePhase
  pub round : ℕ
  pub total_rounds : ℕ
  pub drawer_id : Option ℕ
  pub remaining_ms : Option ℕ
  pub word_length : Option ℕ
  pub strokes : List StrokeSegment

pub record RoundStartedMessage : Type 0 where
  pub round : ℕ
  pub total_rounds : ℕ
  pub drawer_id : ℕ
  pub drawer_nickname : Text
  pub remaining_ms : ℕ
  pub word_length : ℕ
  pub word : Option Text

pub data ServerToClientMessage : Type 0 where
  room_state : RoomStateMessage → ServerToClientMessage
  player_joined :
      (room_id : Text) (player : PlayerSummary) (player_count : ℕ) → ServerToClientMessage
  player_left :
      (room_id : Text) (player_id : ℕ) (nickname : Text) (player_count : ℕ) → ServerToClientMessage
  room_full : (room_id : Text) → ServerToClientMessage
  room_not_found : (room_id : Text) → ServerToClientMessage
  chat : (player_id : ℕ) (nickname : Text) (text : Text) (at : ℕ) → ServerToClientMessage
  system : (text : Text) (at : ℕ) → ServerToClientMessage
  draw : StrokeSegment → ServerToClientMessage
  draw_clear : ServerToClientMessage
  game_started : (total_rounds : ℕ) → ServerToClientMessage
  round_started : RoundStartedMessage → ServerToClientMessage
  round_ended : (round : ℕ) (word : Text) (players : List PlayerSummary) → ServerToClientMessage
  correct_answer :
      (player_id : ℕ) (nickname : Text) (players : List PlayerSummary) → ServerToClientMessage
  game_ended : (players : List PlayerSummary) → ServerToClientMessage
