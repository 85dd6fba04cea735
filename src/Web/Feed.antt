-- ===== src/Web/Feed.antt =====
-- apps/web/src/features/room/useRoomSocket.ts: the feed against the list of all its entries.
use gacha_mind.Base.{
  append_assoc, append-nil, ℕ, zero, suc, ◌+◌, ◌-◌, ◌≤◌, ◌≡◌, refl, sym, ap, ◌∙◌, List, [], ◌∷◌,
  ◌++◌, none, some, arith, length, length-append, drop, length-drop,
}
use gacha_mind.Shared.Protocol.{
  ServerToClientMessage, room_state, player_joined, player_left, room_full, room_not_found, chat,
  system, draw, draw_clear, game_started, round_started, round_ended, correct_answer, game_ended,
}
use gacha_mind.Web.RoomSocket.{
  Client, FeedEntry, chat_entry, system_entry, correct_entry, last_of, push_feed, receive,
  initial_client, solved_text, round_over_text, game_over_text, on_room_state, on_round_started,
  on_correct_answer, on_round_ended, on_game_ended, emit_draw,
}
use gacha_mind.Web.Mirror.{receive_from}

-- The line of the feed that a message gives, if it gives one.
unfoldable pub entry_of : ℕ → ServerToClientMessage → List FeedEntry
entry_of now (room_state m) = []
entry_of now (player_joined room p n) = []
entry_of now (player_left room id nickname n) = []
entry_of now (room_full room) = []
entry_of now (room_not_found room) = []
entry_of now (chat id nickname text at) =
    record { kind = chat_entry; nickname = some nickname; text = text; at = at } ∷ []
entry_of now (system text at) =
    record { kind = system_entry; nickname = none; text = text; at = at } ∷ []
entry_of now (draw stroke) = []
entry_of now draw_clear = []
entry_of now (game_started n) = []
entry_of now (round_started m) = []
entry_of now (correct_answer id nickname players) =
    record { kind = correct_entry; nickname = some nickname; text = solved_text nickname; at = now }
    ∷ []
entry_of now (round_ended round word players) =
    record { kind = system_entry; nickname = none; text = round_over_text round word; at = now }
    ∷ []
entry_of now (game_ended players) =
    record { kind = system_entry; nickname = none; text = game_over_text; at = now } ∷ []

-- All lines that the messages give.
unfoldable pub all_entries : (ℕ → ℕ) → ℕ → List ServerToClientMessage → List FeedEntry
all_entries clock k [] = []
all_entries clock k (m ∷ ms) = entry_of (clock k) m ++ all_entries clock (suc k) ms

module _ {ℓ} {A : Type ℓ} where
  drop-empty : (n : ℕ) → ◌≡◌ {A = List A} (drop n []) []
  drop-empty zero = refl
  drop-empty (suc n) = refl

  drop-drop : (a b c : ℕ) (xs : List A) → c ≡ b + a → drop a (drop b xs) ≡ drop c xs
  drop-drop a zero c xs e = let same : a ≡ c = omega (arith, e) in ap (λ n. drop n xs) same
  drop-drop a (suc b) c [] e = drop-empty a ∙ sym (drop-empty c)
  drop-drop a (suc b) zero (x ∷ xs) e = absurd (omega (arith, e))
  drop-drop a (suc b) (suc c) (x ∷ xs) e = drop-drop a b c xs (omega (arith, e))

  drop-append : (n : ℕ) (xs ys : List A) → n ≤ length xs → drop n (xs ++ ys) ≡ drop n xs ++ ys
  drop-append zero xs ys h = refl
  drop-append (suc n) [] ys h = absurd (omega (arith, h))
  drop-append (suc n) (x ∷ xs) ys h = drop-append n xs ys (omega (arith, h))

  -- Cutting before an entry is added changes nothing of what is left after it.
  last_of-snoc :
      (n : ℕ) (xs : List A) (x : A) → last_of n (last_of n xs ++ x ∷ []) ≡ last_of n (xs ++ x ∷ [])
  unfolding last_of
  last_of-snoc n xs x =
      let cut = length xs - n in
      let kept : cut ≤ length xs = omega arith in
      ap (λ ys. drop (length ys - n) ys) (sym (drop-append cut xs (x ∷ []) kept))
      ∙ drop-drop (length (drop cut (xs ++ x ∷ [])) - n) cut (length (xs ++ x ∷ []) - n)
          (xs ++ x ∷ []) (omega (arith, length-drop cut (xs ++ x ∷ []), length-append xs (x ∷ [])))

  pub length-last_of-le : (n : ℕ) (xs : List A) → length (last_of n xs) ≤ n
  unfolding last_of
  length-last_of-le n xs = omega (arith, length-drop (length xs - n) xs)

quiet : (f old : List FeedEntry) → f ≡ last_of 200 old → f ≡ last_of 200 (old ++ [])
quiet f old e = e ∙ ap (last_of 200) (sym (append-nil old))

pushed :
    (f old : List FeedEntry) (x : FeedEntry)
    → f ≡ last_of 200 old
    → last_of 200 (f ++ x ∷ []) ≡ last_of 200 (old ++ x ∷ [])
pushed f old x e = ap (λ ys. last_of 200 (ys ++ x ∷ [])) e ∙ last_of-snoc 200 old x

receive-feed :
    (now : ℕ) (m : ServerToClientMessage) (c : Client) (old : List FeedEntry)
    → c.feed ≡ last_of 200 old
    → (receive now m c).feed ≡ last_of 200 (old ++ entry_of now m)
unfolding receive entry_of on_room_state on_round_started on_correct_answer on_round_ended
    on_game_ended push_feed emit_draw
receive-feed now (room_state m) c old e = quiet c.feed old e
receive-feed now (player_joined room p n) c old e = quiet c.feed old e
receive-feed now (player_left room id nickname n) c old e = quiet c.feed old e
receive-feed now (room_full room) c old e = quiet c.feed old e
receive-feed now (room_not_found room) c old e = quiet c.feed old e
receive-feed now (chat id nickname text at) c old e = pushed c.feed old _ e
receive-feed now (system text at) c old e = pushed c.feed old _ e
receive-feed now (draw stroke) c old e = quiet c.feed old e
receive-feed now draw_clear c old e = quiet c.feed old e
receive-feed now (game_started n) c old e = quiet c.feed old e
receive-feed now (round_started m) c old e = quiet c.feed old e
receive-feed now (correct_answer id nickname players) c old e = pushed c.feed old _ e
receive-feed now (round_ended round word players) c old e = pushed c.feed old _ e
receive-feed now (game_ended players) c old e = pushed c.feed old _ e

receive_from-feed :
    (clock : ℕ → ℕ) (k : ℕ) (ms : List ServerToClientMessage) (c : Client) (old : List FeedEntry)
    → c.feed ≡ last_of 200 old
    → (receive_from clock k ms c).feed ≡ last_of 200 (old ++ all_entries clock k ms)
unfolding receive_from all_entries
receive_from-feed clock k [] c old e = quiet c.feed old e
receive_from-feed clock k (m ∷ ms) c old e =
    receive_from-feed clock (suc k) ms (receive (clock k) m c) _ (receive-feed (clock k) m c old e)
    ∙ ap (last_of 200) (append_assoc old (entry_of (clock k) m) (all_entries clock (suc k) ms))

-- After any messages at any times, the feed of a browser that started afresh is the last two hundred
-- of the lines that the messages give, or all of them if they are fewer.
pub feed_lem :
    (clock : ℕ → ℕ) (ms : List ServerToClientMessage)
    → ((receive_from clock 0 ms initial_client).feed ≡ last_of 200 (all_entries clock 0 ms))
      × (length (receive_from clock 0 ms initial_client).feed ≤ 200)
feed_lem clock ms =
    let e =
      receive_from-feed clock 0 ms initial_client [] (unfold initial_client last_of in refl) in
    (e, rw e (length-last_of-le 200 (all_entries clock 0 ms)))
