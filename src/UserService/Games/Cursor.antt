-- ===== src/UserService/Games/Cursor.antt =====
-- A cursor that a page gives is read as the key of its last game.
use gacha_mind.Base.{
  ◌<◌, All, All-append, ℕ, ◌≡◌, ◌≢◌, refl, ap, true, false, [], ◌∷◌, ◌++◌, some, Text, codes, arith,
  length, elem, ◌==◌,
}
use gacha_mind.Shared.Account.{PlayerGameRecord}
use gacha_mind.UserService.Games.{
  Notation, encode_cursor, decode_cursor, check_cursor, second_part, until_bar, after_bar,
  looks_like_uuid, is_uuid_char, cast_key,
}

abbrev pub IsAscii : Text → Type 0
IsAscii s = All (λ c. c < 128) s

-- Base64url gives back an ASCII text that it was given, and gives the empty text for no other.
pub record IsCodec (w : Notation) : Type 0 where
  pub decoded : (s : Text) → IsAscii s → w.from_base64 (w.to_base64 s) ≡ s
  pub written : (c : ℕ) (s : Text) → w.to_base64 (c ∷ s) ≢ []

-- The time and the identifier of a game are read as they were written, and the writings have the
-- form that JavaScript and Postgres document.
pub record IsWritten (w : Notation) (g : PlayerGameRecord) : Type 0 where
  pub iso_some : w.to_iso g.finished_at ≢ []
  pub iso_ascii : IsAscii (w.to_iso g.finished_at)
  pub iso_plain : elem 124 (w.to_iso g.finished_at) ≡ false
  pub iso_date : w.is_date (w.to_iso g.finished_at) ≡ true
  pub iso_time : w.to_time (w.to_iso g.finished_at) ≡ some g.finished_at
  pub uuid_length : length (w.uuid_text g.game_id) ≡ 36
  pub uuid_form : looks_like_uuid (w.uuid_text g.game_id) ≡ true
  pub uuid_value : w.to_uuid (w.uuid_text g.game_id) ≡ some g.game_id

until_bar-join : (s t : Text) → elem 124 s ≡ false → until_bar (s ++ codes "|" ++ t) ≡ s
unfolding until_bar elem
until_bar-join [] t h = refl
until_bar-join (c ∷ s) t h =
    let plain : (c == 124) ≡ false = ground arith in
    rw plain (ap (◌∷◌ c) (until_bar-join s t (ground (arith, plain))))

after_bar-join : (s t : Text) → elem 124 s ≡ false → after_bar (s ++ codes "|" ++ t) ≡ some t
unfolding after_bar elem
after_bar-join [] t h = refl
after_bar-join (c ∷ s) t h =
    let plain : (c == 124) ≡ false = ground arith in
    rw plain (after_bar-join s t (ground (arith, plain)))

until_bar-uuid : (s : Text) → looks_like_uuid s ≡ true → until_bar s ≡ s
unfolding until_bar looks_like_uuid is_uuid_char
until_bar-uuid [] h = refl
until_bar-uuid (c ∷ s) h =
    let plain : (c == 124) ≡ false = ground arith in
    rw plain (ap (◌∷◌ c) (until_bar-uuid s (ground (arith, plain))))

looks_like_uuid-IsAscii : (s : Text) → looks_like_uuid s ≡ true → IsAscii s
unfolding looks_like_uuid is_uuid_char
looks_like_uuid-IsAscii [] h = tt
looks_like_uuid-IsAscii (c ∷ s) h =
    (ground (arith, h), looks_like_uuid-IsAscii s (ground (arith, h)))

module _ (w : Notation) where
  check_cursor-written :
      (time id : Text)
      → time ≢ []
      → w.is_date time ≡ true
      → length id ≡ 36
      → looks_like_uuid id ≡ true
      → check_cursor w time (some id) ≡ some (time, id)
  unfolding check_cursor
  check_cursor-written [] id n d l u = absurd (n refl)
  check_cursor-written (c ∷ time) id n d l u = rw (d, l, u) refl

  pub decode_cursor-encode :
      (g : PlayerGameRecord)
      → IsCodec w
      → IsWritten w g
      → decode_cursor w (encode_cursor w g) ≡ some (w.to_iso g.finished_at, w.uuid_text g.game_id)
  unfolding decode_cursor encode_cursor second_part
  decode_cursor-encode g k v =
      rw
        (
          k.decoded (w.to_iso g.finished_at ++ codes "|" ++ w.uuid_text g.game_id) (
              All-append (λ c. c < 128) (w.to_iso g.finished_at ++ codes "|")
                (w.uuid_text g.game_id)
                (All-append (λ c. c < 128) (w.to_iso g.finished_at) (codes "|") v.iso_ascii
                  (omega arith, tt))
                (looks_like_uuid-IsAscii (w.uuid_text g.game_id) v.uuid_form)),
          until_bar-join (w.to_iso g.finished_at) (w.uuid_text g.game_id) v.iso_plain,
          after_bar-join (w.to_iso g.finished_at) (w.uuid_text g.game_id) v.iso_plain,
          until_bar-uuid (w.uuid_text g.game_id) v.uuid_form,
        )
        (check_cursor-written (w.to_iso g.finished_at) (w.uuid_text g.game_id) v.iso_some v.iso_date
          v.uuid_length v.uuid_form)

  pub cast_key-written :
      (g : PlayerGameRecord)
      → IsWritten w g
      → cast_key w (w.to_iso g.finished_at, w.uuid_text g.game_id) ≡ some (g.finished_at, g.game_id)
  unfolding cast_key
  cast_key-written g v = rw (cast_key, v.iso_time, v.uuid_value) refl

  -- A cursor is never empty.
  pub encode_cursor-some : (g : PlayerGameRecord) → IsCodec w → encode_cursor w g ≢ []
  unfolding encode_cursor
  encode_cursor-some g k = starts (w.to_iso g.finished_at)
    where
      starts : (s : Text) → w.to_base64 (s ++ codes "|" ++ w.uuid_text g.game_id) ≢ []
      starts [] = k.written 124 (w.uuid_text g.game_id)
      starts (c ∷ s) = k.written c (s ++ codes "|" ++ w.uuid_text g.game_id)
