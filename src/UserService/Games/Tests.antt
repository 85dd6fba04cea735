-- ===== src/UserService/Games/Tests.antt =====
-- Three games of a user, read two at a time.
use gacha_mind.Base.{
  arith, ℕ, ◌+◌, ◌-◌, suc, ◌≡◌, refl, true, [], ◌∷◌, ◌++◌, Option, none, some, codes, length,
  get_elem?, All, elem, Distinct,
}
use gacha_mind.UserService.History.{GameRow, PlayerRow, Database}
use gacha_mind.UserService.Games.{
  Notation, natural, games_of, join_games, belongs_to, looks_like_uuid, is_uuid_char,
}
use gacha_mind.UserService.Games.Order.{game_ids}
use gacha_mind.UserService.Games.Cursor.{IsCodec, IsWritten}
use gacha_mind.UserService.Games.Pages.{read_all, in_order, read_all-in_order}

abbrev digit : Option ℕ → Option ℕ
digit none = none
digit (some c) = some (c - 48)

-- A way to write times and identifiers below ten.
abbrev small : Notation
small = record {
  to_iso = λ t. (48 + t) ∷ [];
  is_date = λ s. true;
  to_time = λ s. digit (get_elem? s 0);
  uuid_text = λ n. codes "00000000-0000-4000-8000-00000000000" ++ (48 + n) ∷ [];
  to_uuid = λ s. digit (get_elem? s 35);
  to_base64 = λ s. s;
  from_base64 = λ s. s;
}

abbrev game : ℕ → ℕ → GameRow
game id time = record {
  id = id;
  room_id = codes "AB12CD";
  rounds_played = 2;
  finished_at = time;
  player_count = 2;
}

abbrev played : ℕ → PlayerRow
played id = record {
  game_id = id;
  player = record {
    player_id = 20 + id;
    user_id = some 7;
    nickname = codes "kim";
    score = 10;
    rank = 1;
  };
}

abbrev three_games : Database
three_games = record {
  games = game 1 5 ∷ game 2 6 ∷ game 3 6 ∷ [];
  game_players = played 1 ∷ played 2 ∷ played 3 ∷ [];
  user_stats = [];
}

small-IsCodec : IsCodec small
small-IsCodec = record { decoded = λ s plain. refl; written = λ c s e. cc }

-- Every line is written and read back.
small-IsWritten : All (IsWritten small) (games_of 7 three_games.games three_games.game_players)
unfolding games_of join_games belongs_to looks_like_uuid is_uuid_char elem
small-IsWritten = (
  record {
    iso_some = λ e. cc;
    iso_ascii = (omega arith, tt);
    iso_plain = refl;
    iso_date = refl;
    iso_time = refl;
    uuid_length = refl;
    uuid_form = refl;
    uuid_value = refl;
  },
  (
    record {
      iso_some = λ e. cc;
      iso_ascii = (omega arith, tt);
      iso_plain = refl;
      iso_date = refl;
      iso_time = refl;
      uuid_length = refl;
      uuid_form = refl;
      uuid_value = refl;
    },
    (
      record {
        iso_some = λ e. cc;
        iso_ascii = (omega arith, tt);
        iso_plain = refl;
        iso_date = refl;
        iso_time = refl;
        uuid_length = refl;
        uuid_form = refl;
        uuid_value = refl;
      },
      tt,
    ),
  ),
)

ids-Distinct : Distinct (game_ids (games_of 7 three_games.games three_games.game_players))
unfolding games_of join_games belongs_to elem
ids-Distinct = (refl, (refl, (refl, tt)))

read_all-in_order_example :
    read_all small 7
      (some (natural 2))
      three_games
      (suc (length (in_order small 7 (some (natural 2)) three_games)))
      none
    ≡ some (in_order small 7 (some (natural 2)) three_games)
read_all-in_order_example =
    read_all-in_order small 7 (some (natural 2)) three_games small-IsCodec small-IsWritten
      ids-Distinct
