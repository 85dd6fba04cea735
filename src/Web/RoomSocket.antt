-- ===== src/Web/RoomSocket.antt =====
-- apps/web/src/features/room/useRoomSocket.ts: what a browser keeps of its room, and how each message
-- from the game session changes it; Requests has the connection and what the browser sends. The
-- states and refs of the hook are one record; what its channel emits to the canvas is kept in order.
pub mod Requests
use gacha_mind.Base.{
  ℕ, ◌+◌, ◌-◌, Bool, true, false, not, List, [], ◌∷◌, ◌++◌, Option, none, some, Text, codes,
  decimal, length, drop, keep, ◌==◌, if◌then◌else◌,
}
use gacha_mind.Shared.Protocol.{
  GamePhase, waiting, playing, ended, PlayerSummary, StrokeSegment, RoomStateMessage,
  RoundStartedMessage, ServerToClientMessage, room_state, player_joined, player_left, room_full,
  room_not_found, chat, system, draw, draw_clear, game_started, round_started, round_ended,
  correct_answer, game_ended,
}

pub data RoomConnectionStatus : Type 0 where
  connecting connected disconnected not_found is_room_full : RoomConnectionStatus

pub data FeedKind : Type 0 where
  chat_entry system_entry correct_entry : FeedKind

pub record FeedEntry : Type 0 where
  pub kind : FeedKind
  pub nickname : Option Text
  pub text : Text
  pub at : ℕ

pub record GameState : Type 0 where
  pub phase : GamePhase
  pub round : ℕ
  pub total_rounds : ℕ
  pub drawer_id : Option ℕ
  pub drawer_nickname : Option Text
  pub round_ends_at : Option ℕ
  pub word_length : Option ℕ
  pub word : Option Text
  pub solved_ids : List ℕ
  pub revealed_word : Option Text

pub data DrawEvent : Type 0 where
  stroke_event : StrokeSegment → DrawEvent
  clear_event : DrawEvent
  reset_event : List StrokeSegment → DrawEvent

pub record Client : Type 0 where
  pub status : RoomConnectionStatus
  pub me : Option PlayerSummary
  pub players : List PlayerSummary
  pub feed : List FeedEntry
  pub game : GameState
  pub strokes : List StrokeSegment
  pub drawn : List DrawEvent

unfoldable pub initial_game : GameState
initial_game = record {
  phase = waiting;
  round = 0;
  total_rounds = 0;
  drawer_id = none;
  drawer_nickname = none;
  round_ends_at = none;
  word_length = none;
  word = none;
  solved_ids = [];
  revealed_word = none;
}

-- The first values of the hook's states and refs.
unfoldable pub initial_client : Client
initial_client = record {
  status = connecting;
  me = none;
  players = [];
  feed = [];
  game = initial_game;
  strokes = [];
  drawn = [];
}

abbrev pub max_feed_entries : ℕ
max_feed_entries = 200

unfoldable pub to_local_deadline : ℕ → Option ℕ → Option ℕ
to_local_deadline now none = none
to_local_deadline now (some left) = some (now + left)

-- `slice(-n)` of a list.
unfoldable pub last_of {ℓ} : {A : Type ℓ} → ℕ → List A → List A
last_of n xs = drop (length xs - n) xs

unfoldable pub push_feed : FeedEntry → Client → Client
unfolding last_of
push_feed e c = record c { feed = last_of max_feed_entries (c.feed ++ e ∷ []) }

unfoldable pub emit_draw : DrawEvent → Client → Client
emit_draw e c = record c { drawn = c.drawn ++ e ∷ [] }

-- `players.find((p) => p.id === id)?.nickname ?? null`
unfoldable pub nickname_in : List PlayerSummary → Option ℕ → Option Text
nickname_in ps none = none
nickname_in [] (some id) = none
nickname_in (p ∷ ps) (some id) = if p.id == id then some p.nickname else nickname_in ps (some id)

-- `players.some((p) => p.id === id)`
unfoldable pub has_id : ℕ → List PlayerSummary → Bool
has_id id [] = false
has_id id (p ∷ ps) = if p.id == id then true else has_id id ps

unfoldable pub add_summary : PlayerSummary → List PlayerSummary → List PlayerSummary
add_summary p ps = if has_id p.id ps then ps else ps ++ p ∷ []

unfoldable pub drop_summary : ℕ → List PlayerSummary → List PlayerSummary
drop_summary id ps = keep (λ p. not (p.id == id)) ps

-- The case "room-state".
unfoldable pub on_room_state : ℕ → RoomStateMessage → Client → Client
unfolding to_local_deadline nickname_in emit_draw
on_room_state now m c = emit_draw (reset_event m.strokes) (record c {
  me = some m.you;
  players = m.players;
  game = record {
    phase = m.phase;
    round = m.round;
    total_rounds = m.total_rounds;
    drawer_id = m.drawer_id;
    drawer_nickname = nickname_in m.players m.drawer_id;
    round_ends_at = to_local_deadline now m.remaining_ms;
    word_length = m.word_length;
    word = none;
    solved_ids = [];
    revealed_word = none;
  };
  strokes = m.strokes;
})

-- The case "round-started".
unfoldable pub on_round_started : ℕ → RoundStartedMessage → Client → Client
unfolding to_local_deadline
on_round_started now m c = record c {
  game = record {
    phase = playing;
    round = m.round;
    total_rounds = m.total_rounds;
    drawer_id = some m.drawer_id;
    drawer_nickname = some m.drawer_nickname;
    round_ends_at = to_local_deadline now (some m.remaining_ms);
    word_length = some m.word_length;
    word = m.word;
    solved_ids = [];
    revealed_word = none;
  };
}

unfoldable pub solved_text : Text → Text
solved_text nickname = nickname ++ codes "님이 정답을 맞혔습니다."

unfoldable pub round_over_text : ℕ → Text → Text
round_over_text round word = decimal round ++ codes "라운드 종료. 정답은 \"" ++ word ++ codes "\"였습니다."

unfoldable pub game_over_text : Text
game_over_text = codes "게임이 종료되었습니다."

-- The case "correct-answer".
unfoldable pub on_correct_answer : ℕ → ℕ → Text → List PlayerSummary → Client → Client
unfolding push_feed solved_text
on_correct_answer now id nickname players c =
    push_feed
      (record {
        kind = correct_entry;
        nickname = some nickname;
        text = solved_text nickname;
        at = now;
      })
      (record c {
        players = players;
        game = record c.game { solved_ids = c.game.solved_ids ++ id ∷ [] };
      })

-- The case "round-ended".
unfoldable pub on_round_ended : ℕ → ℕ → Text → List PlayerSummary → Client → Client
unfolding push_feed round_over_text
on_round_ended now round word players c =
    push_feed
      (record { kind = system_entry; nickname = none; text = round_over_text round word; at = now })
      (record c {
        players = players;
        game = record c.game {
          drawer_id = none;
          drawer_nickname = none;
          round_ends_at = none;
          word = none;
          revealed_word = some word;
        };
      })

-- The case "game-ended".
unfoldable pub on_game_ended : ℕ → List PlayerSummary → Client → Client
unfolding push_feed game_over_text
on_game_ended now players c =
    push_feed (record { kind = system_entry; nickname = none; text = game_over_text; at = now })
      (record c {
        players = players;
        game = record c.game { phase = ended; drawer_id = none; round_ends_at = none };
      })

-- `onmessage`, at the time `now` of the browser's clock.
unfoldable pub receive : ℕ → ServerToClientMessage → Client → Client
unfolding on_room_state on_round_started on_correct_answer on_round_ended on_game_ended push_feed
    emit_draw add_summary drop_summary
receive now (room_state m) c = on_room_state now m c
receive now (player_joined room p n) c = record c { players = add_summary p c.players }
receive now (player_left room id nickname n) c = record c { players = drop_summary id c.players }
receive now (room_full room) c = record c { status = is_room_full }
receive now (room_not_found room) c = record c { status = not_found }
receive now (chat id nickname text at) c =
    push_feed (record { kind = chat_entry; nickname = some nickname; text = text; at = at }) c
receive now (system text at) c =
    push_feed (record { kind = system_entry; nickname = none; text = text; at = at }) c
receive now (draw stroke) c =
    emit_draw (stroke_event stroke) (record c { strokes = c.strokes ++ stroke ∷ [] })
receive now draw_clear c = emit_draw clear_event (record c { strokes = [] })
receive now (game_started n) c = record c {
  game = record c.game { phase = playing; total_rounds = n; revealed_word = none };
}
receive now (round_started m) c = on_round_started now m c
receive now (correct_answer id nickname players) c = on_correct_answer now id nickname players c
receive now (round_ended round word players) c = on_round_ended now round word players c
receive now (game_ended players) c = on_game_ended now players c
