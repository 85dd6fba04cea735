-- ===== src/UserService/Games/Pages.antt =====
-- Following the cursors from page to page reads the games of a user.
use gacha_mind.Base.{
  append_assoc, ℕ, zero, suc, ◌+◌, ◌-◌, ◌≤◌, ◌<◌, ◌≡◌, ◌≢◌, refl, sym, subst, ap, ◌∙◌, inl, inr,
  true, false, List, [], ◌∷◌, ◌++◌, Option, none, some, Text, arith, length, take, drop,
  length-take, length-drop, ltb, ltb→lt, ltb→le, Bool-cases, keep, sort_by, sort_by-All, All,
  Distinct,
}
use gacha_mind.UserService.History.{Database}
use gacha_mind.Shared.Account.{PlayerGameRecord}
use gacha_mind.UserService.Games.{
  Notation, Integer, natural, negative, page, invalid_cursor, query_failed, clamp_limit, games_of,
  later_game, is_before, query_games, encode_cursor, decode_cursor, last_game, next_page, read_page,
  read_after, read_decoded, list_games,
}
use gacha_mind.UserService.Games.Order.{
  Ordered, sorted-Ordered, keep-sorted, game_ids, sorted-Distinct, keep-after,
}
use gacha_mind.UserService.Games.Cursor.{
  IsCodec, IsWritten, decode_cursor-encode, cast_key-written, encode_cursor-some,
}

unfoldable pub prepend :
    List PlayerGameRecord → Option (List PlayerGameRecord) → Option (List PlayerGameRecord)
prepend gs none = none
prepend gs (some hs) = some (gs ++ hs)

-- A reader that asks for page after page, for at most so many; `none` is an error or no end.
unfoldable pub read_all :
    Notation
    → (user : ℕ) → Option Integer
    → Database
    → (pages : ℕ) → Option Text
    → Option (List PlayerGameRecord)
unfolding prepend
read_all w user limit db zero cursor = none
read_all w user limit db (suc n) cursor = elim (list_games w user limit cursor db) [
  | page p ↦ elim p.next_cursor [
    | none ↦ some p.games
    | some c ↦ prepend p.games (read_all w user limit db n (some c))
  ]
  | invalid_cursor ↦ none
  | query_failed ↦ none
]

module _ {ℓ} {A : Type ℓ} where
  take-drop : (n : ℕ) (xs : List A) → take n xs ++ drop n xs ≡ xs
  take-drop zero xs = refl
  take-drop (suc n) [] = refl
  take-drop (suc n) (x ∷ xs) = ap (◌∷◌ x) (take-drop n xs)

  take-take_more : (n : ℕ) (xs : List A) → take n (take (suc n) xs) ≡ take n xs
  take-take_more zero xs = refl
  take-take_more (suc n) [] = refl
  take-take_more (suc n) (x ∷ xs) = ap (◌∷◌ x) (take-take_more n xs)

  take_all : (n : ℕ) (xs : List A) → length xs ≤ n → take n xs ≡ xs
  take_all zero [] h = refl
  take_all zero (x ∷ xs) h = absurd (omega (arith, h))
  take_all (suc n) [] h = refl
  take_all (suc n) (x ∷ xs) h = ap (◌∷◌ x) (take_all n xs (omega (arith, h)))

  -- A list longer than `n`, cut around the element at place `n`.
  cut_at :
      (n : ℕ) (xs : List A)
      → n < length xs
      → (x : A) × (take (suc n) xs ≡ take n xs ++ x ∷ []) × (xs ≡ take n xs ++ x ∷ drop (suc n) xs)
  cut_at n [] h = absurd (omega (arith, h))
  cut_at zero (x ∷ xs) h = (x, refl, refl)
  cut_at (suc n) (x ∷ xs) h =
      let (y, p, q) = cut_at n xs (omega (arith, h)) in (y, ap (◌∷◌ x) p, ap (◌∷◌ x) q)

last_game-snoc :
    (gs : List PlayerGameRecord) (g : PlayerGameRecord) → last_game (gs ++ g ∷ []) ≡ some g
unfolding last_game
last_game-snoc [] g = refl
last_game-snoc (h ∷ []) g = refl
last_game-snoc (h ∷ k ∷ gs) g = last_game-snoc (k ∷ gs) g

clamp_limit-pos : (limit : Option Integer) → 1 ≤ clamp_limit limit
unfolding clamp_limit
clamp_limit-pos none = omega arith
clamp_limit-pos (some (natural n)) = omega arith
clamp_limit-pos (some negative) = omega arith

-- The page after which nothing is left, and the page that has a next.
module _ (w : Notation) (rest : List PlayerGameRecord) where
  next_page_last :
      (limit : ℕ)
      → length rest ≤ limit
      → next_page w limit (take (suc limit) rest) ≡ record { games = rest; next_cursor = none }
  unfolding next_page
  next_page_last limit h =
      let few : ltb limit (length rest) ≡ false = ground (arith, h) in
      rw (take_all (suc limit) rest (omega (arith, h)), take_all limit rest h, few) refl

  next_page_more :
      (n : ℕ) (x : PlayerGameRecord)
      → suc n < length rest
      → take (suc n) rest ≡ take n rest ++ x ∷ []
      → next_page w (suc n) (take (suc (suc n)) rest)
        ≡ record { games = take (suc n) rest; next_cursor = some (encode_cursor w x) }
  unfolding next_page
  next_page_more n x h e =
      let many : ltb (suc n) (length (take (suc (suc n)) rest)) ≡ true =
        ground (arith, h, length-take (suc (suc n)) rest) in
      rw (take-take_more (suc n) rest, many, e, last_game-snoc (take n rest) x) refl

module _ (w : Notation) (user : ℕ) (limit : Option Integer) (db : Database) where
  abbrev lines : List PlayerGameRecord
  lines = games_of user db.games db.game_players

  abbrev pub in_order : List PlayerGameRecord
  in_order = sort_by later_game lines

  -- The cursor gives the page at the head of those games.
  abbrev Points : Option Text → List PlayerGameRecord → Type 0
  Points cursor rest =
      list_games w user limit cursor db
      ≡ page (next_page w (clamp_limit limit) (take (suc (clamp_limit limit)) rest))

  read_page-rows :
      (after : Option (ℕ × ℕ)) (rest : List PlayerGameRecord)
      → keep (is_before after) in_order ≡ rest
      → read_page w user (clamp_limit limit) after db
        ≡ page (next_page w (clamp_limit limit) (take (suc (clamp_limit limit)) rest))
  unfolding read_page query_games
  read_page-rows after rest e =
      let one_more : clamp_limit limit + 1 ≡ suc (clamp_limit limit) = omega arith in
      rw (one_more, keep-sorted (is_before after) lines, e) refl

  keep-none : (gs : List PlayerGameRecord) → keep (is_before none) gs ≡ gs
  unfolding is_before
  keep-none [] = refl
  keep-none (g ∷ gs) = ap (◌∷◌ g) (keep-none gs)

  first-Points : Points none in_order
  unfolding list_games
  first-Points = read_page-rows none in_order (keep-none in_order)

  list_games-cursor :
      (cursor : Text)
      → cursor ≢ []
      → list_games w user limit (some cursor) db
        ≡ read_decoded w user (clamp_limit limit) (decode_cursor w cursor) db
  unfolding list_games
  list_games-cursor [] n = absurd (n refl)
  list_games-cursor (c ∷ s) n = refl

  next-Points :
      (before : List PlayerGameRecord) (x : PlayerGameRecord) (after : List PlayerGameRecord)
      → IsCodec w
      → IsWritten w x
      → Distinct (game_ids in_order)
      → in_order ≡ before ++ x ∷ after
      → Points (some (encode_cursor w x)) after
  unfolding read_decoded read_after
  next-Points before x after k v d e =
      list_games-cursor (encode_cursor w x) (encode_cursor-some w x k)
      ∙ rw (decode_cursor-encode w x k v, cast_key-written w x v)
          (read_page-rows (some (x.finished_at, x.game_id)) after (
            ap (keep (is_before (some (x.finished_at, x.game_id)))) e
            ∙ keep-after before x after (subst Ordered e (sorted-Ordered lines))
                (subst (λ gs. Distinct (game_ids gs)) e d)))

  All-split :
      (before : List PlayerGameRecord) (x : PlayerGameRecord) (after : List PlayerGameRecord)
      → All (IsWritten w) (before ++ x ∷ after)
      → IsWritten w x
  All-split [] x after h = h.0
  All-split (b ∷ before) x after h = All-split before x after h.1

  read_all-rest :
      (pages m : ℕ) (before rest : List PlayerGameRecord) (cursor : Option Text)
      → clamp_limit limit ≡ suc m
      → IsCodec w
      → All (IsWritten w) in_order
      → Distinct (game_ids in_order)
      → in_order ≡ before ++ rest
      → Points cursor rest
      → length rest < pages
      → read_all w user limit db pages cursor ≡ some rest
  unfolding read_all prepend
  read_all-rest zero m before rest cursor l k v d e p h = absurd (omega (arith, h))
  read_all-rest (suc n) m before rest cursor l k v d e p h =
      let at_limit = ap (λ c. page (next_page w c (take (suc c) rest))) l in
      elim (Bool-cases (ltb (suc m) (length rest))) [
        | inr few ↦
            let answer : list_games w user limit cursor db
                ≡ page (record { games = rest; next_cursor = none }) =
              p
              ∙ at_limit
              ∙ ap page (next_page_last w rest (suc m) (ltb→le (suc m) (length rest) few)) in
            rw (read_all, answer) refl
        | inl many ↦
            let more = ltb→lt (suc m) (length rest) many in
            let (x, head, cut) = cut_at m rest (omega (arith, more)) in
            let split : in_order ≡ (before ++ take m rest) ++ x ∷ drop (suc m) rest =
              e
              ∙ ap (λ r. before ++ r) cut
              ∙ sym (append_assoc before (take m rest) (x ∷ drop (suc m) rest)) in
            let split_all : in_order ≡ (before ++ take (suc m) rest) ++ drop (suc m) rest =
              e
              ∙ ap (λ r. before ++ r) (sym (take-drop (suc m) rest))
              ∙ sym (append_assoc before (take (suc m) rest) (drop (suc m) rest)) in
            let written : IsWritten w x =
              All-split (before ++ take m rest) x (drop (suc m) rest)
                (subst (All (IsWritten w)) split v) in
            let later =
              read_all-rest n m (before ++ take (suc m) rest) (drop (suc m) rest)
                (some (encode_cursor w x)) l k v d split_all
                (next-Points (before ++ take m rest) x (drop (suc m) rest) k written d split)
                (omega (arith, h, more, length-drop (suc m) rest)) in
            let answer : list_games w user limit cursor db
                ≡ page
                    (record { games = take (suc m) rest; next_cursor = some (encode_cursor w x) }) =
              p ∙ at_limit ∙ ap page (next_page_more w rest m x more head) in
            rw (read_all, answer, later) (ap some (take-drop (suc m) rest))
      ]

  -- A reader that starts without a cursor, whatever limit it asks for, and follows the cursors for as
  -- many pages as the user has games, and one, reads without an error all games of the user, each
  -- once, the latest first. That supposes that base64url of an ASCII text is undone, that times and
  -- identifiers of these games are read as they were written, and that no game has two rows for the
  -- user.
  pub read_all-in_order :
      IsCodec w
      → All (IsWritten w) lines
      → Distinct (game_ids lines)
      → read_all w user limit db (suc (length in_order)) none ≡ some in_order
  read_all-in_order k v d =
      let pos = clamp_limit-pos limit in
      let least : clamp_limit limit ≡ suc (clamp_limit limit - 1) = omega (arith, pos) in
      read_all-rest (suc (length in_order)) (clamp_limit limit - 1) [] in_order none least k
        (sort_by-All later_game (IsWritten w) lines v) (sorted-Distinct lines d) refl first-Points
        (omega arith)
