-- ===== src/GameSession/Guess/Leaks.antt =====
-- The answer and the chat.
use gacha_mind.Base.{
  ℕ, ◌≡◌, subst, inl, inr, true, false, ◌&&◌, [], ◌∷◌, sym, Option, none, some, Text, text_eq,
  includes, trim, take, or_else, ◌==◌, Bool-cases,
}
use gacha_mind.Shared.Protocol.{
  ServerToClientMessage, room_state, player_joined, player_left, room_full, room_not_found, chat,
  system, draw, draw_clear, game_started, round_started, round_ended, correct_answer, game_ended,
}
use gacha_mind.Shared.Answer.{normalize_answer}
use gacha_mind.GameSession.Room.{
  Player, Session, find_player, size, summaries, unsolved_guesser_count, change, broadcast,
}
use gacha_mind.GameSession.Room.Log.{Logged, broadcast-Logged}
use gacha_mind.GameSession.Game.{is_playing, close_round, end_round, rest_round}
use gacha_mind.GameSession.Guess.{award, is_guesser, announce_correct, end_if_all_solved, judge}
use gacha_mind.GameSession.Guess.Scoring.{handle_guess-judge}
use gacha_mind.GameSession.Handlers.{max_chat_length, pass_on, say, handle_chat_of, handle_chat}

-- The text of a chat message, normalised, does not have the answer in it.
abbrev pub Hides : (Text → Text) → Text → ℕ → ServerToClientMessage → Type 0
Hides lower answer id (chat p n t a) = includes (normalize_answer lower t) answer ≡ false
Hides lower answer id (round_started m) = Unit
Hides lower answer id (room_state m) = Unit
Hides lower answer id (player_joined r p n) = Unit
Hides lower answer id (player_left r p n k) = Unit
Hides lower answer id (room_full r) = Unit
Hides lower answer id (room_not_found r) = Unit
Hides lower answer id (system t a) = Unit
Hides lower answer id (draw s) = Unit
Hides lower answer id draw_clear = Unit
Hides lower answer id (game_started n) = Unit
Hides lower answer id (round_ended r w ps) = Unit
Hides lower answer id (correct_answer p n ps) = Unit
Hides lower answer id (game_ended ps) = Unit

module _ (lower : Text → Text) (answer : Text) where
  end_round-Hides :
      (s : Session) → Logged (Hides lower answer) s → Logged (Hides lower answer) (end_round s)
  unfolding end_round rest_round broadcast
  end_round-Hides s h = elim (Bool-cases (is_playing s.room.phase)) [
    | inr idle ↦ rw idle h
    | inl e ↦
        let told =
          broadcast-Logged (Hides lower answer)
            (round_ended s.room.round (or_else s.room.word []) (summaries (close_round s.room)))
            none (change close_round s) (λ id _. tt) h in
        elim (Bool-cases (size s.room == 0)) [
          | inl z ↦ rw (e, z) (unfold close_round in told)
          | inr z ↦ rw (e, z) (unfold close_round in told)
        ]
  ]

  hit-Hides :
      (now : ℕ) (p : Player) (s : Session)
      → Logged (Hides lower answer) s
      → Logged
          (Hides lower answer)
          (end_if_all_solved (announce_correct p (change (award now p.id) s)))
  unfolding end_if_all_solved
  hit-Hides now p s h =
      let told : Logged (Hides lower answer) (announce_correct p (change (award now p.id) s)) =
        unfold announce_correct in
        broadcast-Logged (Hides lower answer)
          (correct_answer p.id p.nickname (summaries (award now p.id s.room))) none
          (change (award now p.id) s) (λ id _. tt) h in
      elim (Bool-cases
        (unsolved_guesser_count (announce_correct p (change (award now p.id) s)).room == 0)) [
          | inl all ↦ rw all (end_round-Hides _ told)
          | inr some_left ↦ rw some_left told
        ]

  pass_on-Hides :
      (now : ℕ) (p : Player) (text : Text) (s : Session)
      → Logged (Hides lower answer) s
      → Logged
          (Hides lower answer)
          (pass_on now p text (judge now p (normalize_answer lower text) answer s))
  unfolding judge pass_on
  pass_on-Hides now p text s h =
      elim (Bool-cases (is_guesser p.id s.room && text_eq (normalize_answer lower text) answer)) [
        | inl hit ↦ rw hit (hit-Hides now p s h)
        | inr miss ↦ elim (Bool-cases (includes (normalize_answer lower text) answer)) [
          | inl held ↦ rw (miss, held) h
          | inr free ↦
              rw (miss, free)
                (broadcast-Logged (Hides lower answer) (chat p.id p.nickname text now) none s
                  (λ id _. free) h)
        ]
      ]

say-Hides :
    (lower : Text → Text) (now : ℕ) (p : Player) (text : Text) (c : ℕ) (w : Text) (s : Session)
    → is_playing s.room.phase ≡ true
    → s.room.word ≡ some (c ∷ w)
    → Logged (Hides lower (normalize_answer lower (c ∷ w))) s
    → Logged (Hides lower (normalize_answer lower (c ∷ w))) (say lower now p text s)
unfolding say
say-Hides lower now p [] c w s h e v = v
say-Hides lower now p (t ∷ text) c w s h e v =
    subst (λ r. Logged (Hides lower (normalize_answer lower (c ∷ w))) (pass_on now p (t ∷ text) r))
      (sym (handle_guess-judge lower now p (t ∷ text) c w s h e))
      (pass_on-Hides lower (normalize_answer lower (c ∷ w)) now p (t ∷ text) s v)

handle_chat_of-Hides :
    (lower : Text → Text) (now : ℕ) (text : Text) (found : Option Player) (c : ℕ) (w : Text)
    (s : Session)
    → is_playing s.room.phase ≡ true
    → s.room.word ≡ some (c ∷ w)
    → Logged (Hides lower (normalize_answer lower (c ∷ w))) s
    → Logged (Hides lower (normalize_answer lower (c ∷ w))) (handle_chat_of lower now text found s)
unfolding handle_chat_of
handle_chat_of-Hides lower now text none c w s h e v = v
handle_chat_of-Hides lower now text (some p) c w s h e v =
    say-Hides lower now p (take max_chat_length (trim text)) c w s h e v

-- In a game, while a word that is not empty is shown, whatever anybody types, the drawer and those
-- who have answered included: if no chat message sent so far has the answer in it, both in normal
-- form, none has after the message is handled.
pub handle_chat-Hides :
    (lower : Text → Text) (now id : ℕ) (text : Text) (c : ℕ) (w : Text) (s : Session)
    → is_playing s.room.phase ≡ true
    → s.room.word ≡ some (c ∷ w)
    → Logged (Hides lower (normalize_answer lower (c ∷ w))) s
    → Logged (Hides lower (normalize_answer lower (c ∷ w))) (handle_chat lower now id text s)
unfolding handle_chat
handle_chat-Hides lower now id text c w s h e v =
    handle_chat_of-Hides lower now text (find_player id s.room.players) c w s h e v
