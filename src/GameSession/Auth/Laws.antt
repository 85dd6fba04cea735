-- ===== src/GameSession/Auth/Laws.antt =====
-- The cookies of a header are read back, and the session among them gives the identity.
use mathlib.Core.List.{reverse, reverse-cons, reverse-reverse}
use gacha_mind.Base.{
  ℕ, ◌≡◌, ◌≢◌, refl, sym, ap, ◌∙◌, inl, inr, false, List, [], ◌∷◌, ◌++◌, Option, none, some, Text,
  arith, text_eq, trim, trim_start, is_space, elem, All, All-append, ◌==◌, ==_refl, ==→eq,
  Bool-cases, if◌then◌else◌,
}
use gacha_mind.Shared.Account.{session_cookie_name}
use gacha_mind.GameSession.Auth.{
  Runtime, split_at, join_with, CookieRead, missing, decoded, read_part, read_parts, read_cookie,
  identify, identify_connection,
}

abbrev pub Cookie : Type 0
Cookie = Text × Text

abbrev written : Cookie → Text
written c = c.0 ++ 61 ∷ c.1

-- The header that a browser sends for its cookies.
unfoldable pub cookie_header : List Cookie → Text
cookie_header [] = []
cookie_header (c ∷ []) = written c
cookie_header (c ∷ d ∷ cs) = written c ++ 59 ∷ 32 ∷ cookie_header (d ∷ cs)

-- The value of the first cookie of that name.
unfoldable pub cookie_of : Text → List Cookie → Option Text
cookie_of name [] = none
cookie_of name (c ∷ cs) = if text_eq c.0 name then some c.1 else cookie_of name cs

-- What RFC 6265 asks of a cookie: no semicolon and no blank, and no equals sign in the name.
pub record IsCookie (c : Cookie) : Type 0 where
  pub name_plain : elem 61 c.0 ≡ false
  pub no_semicolon : elem 59 (written c) ≡ false
  pub no_space : All (λ k. is_space k ≡ false) (written c)

split_at-none : (x : ℕ) (s : Text) → elem x s ≡ false → split_at x s ≡ (s, [])
unfolding split_at elem
split_at-none x [] h = refl
split_at-none x (c ∷ s) h =
    let other : (c == x) ≡ false = ground arith in
    rw (split_at-none x s (ground (arith, other)), other) refl

split_at-append :
    (x : ℕ) (s t : Text)
    → elem x s ≡ false
    → split_at x (s ++ x ∷ t) ≡ (s, (split_at x t).0 ∷ (split_at x t).1)
unfolding split_at elem
split_at-append x [] t h = rw (==_refl x) refl
split_at-append x (c ∷ s) t h =
    let other : (c == x) ≡ false = ground arith in
    rw (split_at-append x s t (ground (arith, other)), other) refl

join_with-cons :
    (x c : ℕ) (s : Text) (parts : List Text)
    → join_with x ((c ∷ s) ∷ parts) ≡ c ∷ join_with x (s ∷ parts)
unfolding join_with
join_with-cons x c s [] = refl
join_with-cons x c s (p ∷ parts) = refl

join_with-split_at : (x : ℕ) (s : Text) → join_with x ((split_at x s).0 ∷ (split_at x s).1) ≡ s
unfolding split_at join_with
join_with-split_at x [] = refl
join_with-split_at x (c ∷ s) = elim (Bool-cases (c == x)) [
  | inl same ↦
      rw same (ap (◌∷◌ x) (join_with-split_at x s) ∙ ap (λ k. k ∷ s) (sym (==→eq c x same)))
  | inr other ↦
      rw other
        (join_with-cons x c (split_at x s).0 (split_at x s).1 ∙ ap (◌∷◌ c) (join_with-split_at x s))
]

trim_start-plain : (s : Text) → All (λ k. is_space k ≡ false) s → trim_start s ≡ s
unfolding trim_start
trim_start-plain [] h = refl
trim_start-plain (c ∷ s) h = rw h.0 refl

reverse-plain :
    (s : Text) → All (λ k. is_space k ≡ false) s → All (λ k. is_space k ≡ false) (reverse s)
reverse-plain [] h = tt
reverse-plain (c ∷ s) h =
    rw (reverse-cons c s)
      (All-append (λ k. is_space k ≡ false) (reverse s) (c ∷ []) (reverse-plain s h.1) (h.0, tt))

trim-plain : (s : Text) → All (λ k. is_space k ≡ false) s → trim s ≡ s
unfolding trim
trim-plain s h =
    rw (trim_start-plain s h, trim_start-plain (reverse s) (reverse-plain s h)) (reverse-reverse s)

module _ (w : Runtime) (name : Text) where
  -- What `readCookie` makes of the cookies themselves.
  abbrev pub reading_of_value : Option Text → CookieRead
  reading_of_value none = missing
  reading_of_value (some v) = decoded (w.decode_component v)

  abbrev pub reading_of : List Cookie → CookieRead
  reading_of cs = reading_of_value (cookie_of name cs)

  reading_of-cons :
      (c : Cookie) (cs : List Cookie)
      → reading_of (c ∷ cs)
        ≡ (if text_eq c.0 name then decoded (w.decode_component c.1) else reading_of cs)
  unfolding cookie_of
  reading_of-cons c cs = elim (Bool-cases (text_eq c.0 name)) [
    | inl e ↦ rw e refl
    | inr e ↦ rw e refl
  ]

  read_part-written :
      (c : Cookie) (others : CookieRead)
      → IsCookie c
      → read_part w name (split_at 61 (trim (written c))) others
        ≡ (if text_eq c.0 name then decoded (w.decode_component c.1) else others)
  unfolding read_part
  read_part-written c others h =
      rw
        (
          trim-plain (written c) h.no_space,
          split_at-append 61 c.0 c.1 h.name_plain,
          join_with-split_at 61 c.1,
        )
        refl

  -- A blank before a part is trimmed away.
  read_parts-blank :
      (s : Text) (parts : List Text)
      → read_parts w name ((32 ∷ s) ∷ parts) ≡ read_parts w name (s ∷ parts)
  unfolding read_parts trim trim_start is_space
  read_parts-blank s parts = refl

  read_parts-header :
      (cs : List Cookie)
      → All IsCookie cs
      → cs ≢ []
      → read_parts w name ((split_at 59 (cookie_header cs)).0 ∷ (split_at 59 (cookie_header cs)).1)
        ≡ reading_of cs
  unfolding read_parts cookie_header cookie_of
  read_parts-header [] h n = absurd (n refl)
  read_parts-header (c ∷ []) h n =
      rw (split_at-none 59 (written c) h.0.no_semicolon, read_part-written c missing h.0)
        (sym (reading_of-cons c []))
  read_parts-header (c ∷ d ∷ cs) h n =
      let rest = cookie_header (d ∷ cs) in
      let blank : split_at 59 (32 ∷ rest) ≡ (32 ∷ (split_at 59 rest).0, (split_at 59 rest).1) =
        unfold split_at in refl in
      let others = read_parts-header (d ∷ cs) h.1 (λ e. cc) in
      let split : split_at 59 (cookie_header (c ∷ d ∷ cs))
          ≡ (written c, (32 ∷ (split_at 59 rest).0) ∷ (split_at 59 rest).1) =
        split_at-append 59 (written c) (32 ∷ rest) h.0.no_semicolon
        ∙ ap (λ o. (written c, o.0 ∷ o.1)) blank in
      ap (λ o. read_parts w name (o.0 ∷ o.1)) split
      ∙ read_part-written c _ h.0
      ∙ ap (λ k. if text_eq c.0 name then decoded (w.decode_component c.1) else k)
          (read_parts-blank (split_at 59 rest).0 (split_at 59 rest).1 ∙ others)
      ∙ sym (reading_of-cons c (d ∷ cs))

  read_cookie-some :
      (header : Text)
      → header ≢ []
      → read_cookie w (some header) name
        ≡ read_parts w name ((split_at 59 header).0 ∷ (split_at 59 header).1)
  unfolding read_cookie
  read_cookie-some [] n = absurd (n refl)
  read_cookie-some (c ∷ header) n = refl

  cookie_header-some : (c : Cookie) (cs : List Cookie) → cookie_header (c ∷ cs) ≢ []
  unfolding cookie_header
  cookie_header-some ([], v) [] e = cc
  cookie_header-some ([], v) (d ∷ cs) e = cc
  cookie_header-some (k ∷ n, v) [] e = cc
  cookie_header-some (k ∷ n, v) (d ∷ cs) e = cc

  -- A header of cookies is read as the first cookie of the name.
  pub read_cookie-header :
      (c : Cookie) (cs : List Cookie)
      → All IsCookie (c ∷ cs)
      → read_cookie w (some (cookie_header (c ∷ cs))) name ≡ reading_of (c ∷ cs)
  read_cookie-header c cs h =
      read_cookie-some (cookie_header (c ∷ cs)) (cookie_header-some c cs)
      ∙ read_parts-header (c ∷ cs) h (λ e. cc)

-- A browser that sends the session cookie, whose value is read as a token that holds for an account,
-- is that account; the other cookies do not matter, if no earlier one has the name.
pub identify_connection-session :
    (w : Runtime) (c : Cookie) (cs : List Cookie) (v token : Text) (id : ℕ)
    (username nickname : Text)
    → All IsCookie (c ∷ cs)
    → cookie_of session_cookie_name (c ∷ cs) ≡ some v
    → w.decode_component v ≡ some token
    → token ≢ []
    → w.verify token
      ≡ some (record { sub = some id; username = username; nickname = some nickname })
    → identify_connection w (some (cookie_header (c ∷ cs)))
      ≡ some (some (record { user_id = id; username = username; nickname = nickname }))
unfolding identify_connection
identify_connection-session w c cs v token id username nickname h e d n k =
    ap (identify w) (
      read_cookie-header w session_cookie_name c cs h
      ∙ ap (reading_of_value w session_cookie_name) e
      ∙ ap decoded d)
    ∙ verified token n k
  where
    verified :
        (t : Text)
        → t ≢ []
        → w.verify t
          ≡ some (record { sub = some id; username = username; nickname = some nickname })
        → identify w (decoded (some t))
          ≡ some (some (record { user_id = id; username = username; nickname = nickname }))
    verified [] n k = absurd (n refl)
    verified (x ∷ t) n k = rw (identify, decoded, k) refl
