-- ===== src/UserService/Games/Order.antt =====
-- The order of the pages: strict on games with different identifiers.
use gacha_mind.Base.{
  ℕ, ◌≡◌, refl, sym, ◌∙◌, inl, inr, Bool, true, false, ◌||◌, List, [], ◌∷◌, ◌++◌, map, some, arith,
  ◌==◌, elem, Distinct, All, keep, Bool-cases, sort_by, sort_onto, insert_by, IsSorted,
  sort_by-IsSorted, keep-sort_by,
}
use gacha_mind.Shared.Account.{PlayerGameRecord}
use gacha_mind.UserService.Games.{later_game, is_before}

-- `b` is not later than `a`.
abbrev pub NotLater : PlayerGameRecord → PlayerGameRecord → Type 0
NotLater a b = later_game b a ≡ false

pub NotLater-trans : (a b c : PlayerGameRecord) → NotLater a b → NotLater b c → NotLater a c
unfolding later_game
NotLater-trans a b c h k = ground arith

pub later_game-NotLater : (a b : PlayerGameRecord) → later_game a b ≡ true → NotLater a b
unfolding later_game
later_game-NotLater a b h = ground arith

later_game-before :
    (a b c : PlayerGameRecord) → later_game a b ≡ true → NotLater b c → later_game a c ≡ true
unfolding later_game
later_game-before a b c h k = ground arith

abbrev pub Ordered : List PlayerGameRecord → Type 0
Ordered = IsSorted later_game NotLater NotLater-trans later_game-NotLater (λ a b h. h)

pub sorted-Ordered : (gs : List PlayerGameRecord) → Ordered (sort_by later_game gs)
sorted-Ordered =
    sort_by-IsSorted later_game NotLater NotLater-trans later_game-NotLater (λ a b h. h)

pub keep-sorted :
    (p : PlayerGameRecord → Bool) (gs : List PlayerGameRecord)
    → sort_by later_game (keep p gs) ≡ keep p (sort_by later_game gs)
keep-sorted p gs = sym (
    keep-sort_by later_game NotLater NotLater-trans later_game-NotLater (λ a b h. h) p
      later_game-before gs)

abbrev pub game_ids : List PlayerGameRecord → List ℕ
game_ids = map λ g. g.game_id

elem-insert_by :
    (a : ℕ) (g : PlayerGameRecord) (gs : List PlayerGameRecord)
    → elem a (game_ids (insert_by later_game g gs)) ≡ (g.game_id == a || elem a (game_ids gs))
unfolding insert_by elem
elem-insert_by a g [] = refl
elem-insert_by a g (h ∷ gs) = elim (Bool-cases (later_game g h)) [
  | inl e ↦ rw e refl
  | inr e ↦ rw (e, elem-insert_by a g gs) (ground arith)
]

insert_by-Distinct :
    (g : PlayerGameRecord) (gs : List PlayerGameRecord)
    → elem g.game_id (game_ids gs) ≡ false
    → Distinct (game_ids gs)
    → Distinct (game_ids (insert_by later_game g gs))
unfolding insert_by elem
insert_by-Distinct g [] fresh d = (refl, tt)
insert_by-Distinct g (h ∷ gs) fresh d = elim (Bool-cases (later_game g h)) [
  | inl e ↦ rw e (fresh, d)
  | inr e ↦ rw e (
    elem-insert_by h.game_id g gs ∙ ground (arith, d),
    insert_by-Distinct g gs (ground arith) d.1,
  )
]

sort_onto-Distinct :
    (acc gs : List PlayerGameRecord)
    → Distinct (game_ids acc)
    → Distinct (game_ids gs)
    → All (λ g. elem g.game_id (game_ids acc) ≡ false) gs
    → Distinct (game_ids (sort_onto later_game acc gs))
unfolding sort_onto elem
sort_onto-Distinct acc [] d k f = d
sort_onto-Distinct acc (g ∷ gs) d k f =
    sort_onto-Distinct (insert_by later_game g acc) gs (insert_by-Distinct g acc f.0 d) k.1
      (apart gs k.0 f.1)
  where
    apart :
        (hs : List PlayerGameRecord)
        → elem g.game_id (game_ids hs) ≡ false
        → All (λ h. elem h.game_id (game_ids acc) ≡ false) hs
        → All (λ h. elem h.game_id (game_ids (insert_by later_game g acc)) ≡ false) hs
    apart [] e f = tt
    apart (h ∷ hs) e f =
        (elem-insert_by h.game_id g acc ∙ ground (arith, e, f.0), apart hs (ground (arith, e)) f.1)

pub sorted-Distinct :
    (gs : List PlayerGameRecord)
    → Distinct (game_ids gs)
    → Distinct (game_ids (sort_by later_game gs))
unfolding sort_by elem
sorted-Distinct gs d = sort_onto-Distinct [] gs tt d (nothing gs)
  where
    nothing : (hs : List PlayerGameRecord) → All (λ h. elem h.game_id [] ≡ false) hs
    nothing [] = tt
    nothing (h ∷ hs) = (refl, nothing hs)

-- What comes before a game in the order of the pages is not after it.
keep-earlier :
    (x : PlayerGameRecord) (gs : List PlayerGameRecord)
    → All (NotLater x) gs
    → elem x.game_id (game_ids gs) ≡ false
    → keep (is_before (some (x.finished_at, x.game_id))) gs ≡ gs
unfolding elem is_before later_game
keep-earlier x [] h d = refl
keep-earlier x (g ∷ gs) h d =
    let before : is_before (some (x.finished_at, x.game_id)) g ≡ true = ground (arith, h.0, d) in
    let rest : elem x.game_id (game_ids gs) ≡ false = ground (arith, d) in
    rw (before, keep-earlier x gs h.1 rest) refl

All-last :
    (a x : PlayerGameRecord) (before after : List PlayerGameRecord)
    → All (NotLater a) (before ++ x ∷ after)
    → NotLater a x
All-last a x [] after h = h.0
All-last a x (b ∷ before) after h = All-last a x before after h.1

-- After a game come exactly those that the key of the game leaves.
pub keep-after :
    (before : List PlayerGameRecord) (x : PlayerGameRecord) (after : List PlayerGameRecord)
    → Ordered (before ++ x ∷ after)
    → Distinct (game_ids (before ++ x ∷ after))
    → keep (is_before (some (x.finished_at, x.game_id))) (before ++ x ∷ after) ≡ after
unfolding is_before later_game
keep-after [] x after o d =
    let same : is_before (some (x.finished_at, x.game_id)) x ≡ false = ground arith in
    rw same (keep-earlier x after o.0 d.0)
keep-after (a ∷ before) x after o d =
    let behind : NotLater a x = All-last a x before after o.0 in
    let out : is_before (some (x.finished_at, x.game_id)) a ≡ false = ground (arith, behind) in
    rw out (keep-after before x after o.1 d.1)
