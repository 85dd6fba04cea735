-- ===== src/GameSession/Words.antt =====
-- apps/game-session/src/words.ts: the dictionary of words and the choice of one.
-- `Math.floor(Math.random() * n)` is a number below `n`, here the remainder of an arbitrary roll.
pub mod Laws
use gacha_mind.Base.{
  ℕ, ◌%◌, Bool, true, false, ◌||◌, not, List, [], ◌∷◌, Option, none, some, Text, codes, text_eq,
  length, keep, get_elem?, or_else, ltb, if◌then◌else◌,
}

unfoldable pub words : List Text
words =
    codes "사과"
    ∷ codes "바나나"
    ∷ codes "고양이"
    ∷ codes "강아지"
    ∷ codes "자전거"
    ∷ codes "비행기"
    ∷ codes "우산"
    ∷ codes "안경"
    ∷ codes "피아노"
    ∷ codes "기타"
    ∷ codes "축구공"
    ∷ codes "냉장고"
    ∷ codes "선풍기"
    ∷ codes "컴퓨터"
    ∷ codes "휴대폰"
    ∷ codes "시계"
    ∷ codes "코끼리"
    ∷ codes "기린"
    ∷ codes "펭귄"
    ∷ codes "상어"
    ∷ codes "무지개"
    ∷ codes "눈사람"
    ∷ codes "케이크"
    ∷ codes "피자"
    ∷ codes "햄버거"
    ∷ codes "커피"
    ∷ codes "로켓"
    ∷ codes "등대"
    ∷ codes "다리"
    ∷ codes "성"
    ∷ codes "왕관"
    ∷ codes "보물상자"
    ∷ []

-- `texts.includes(w)`
unfoldable pub text_elem : Text → List Text → Bool
text_elem w [] = false
text_elem w (v ∷ vs) = text_eq v w || text_elem w vs

pool : List Text → List Text
pool exclude = keep (λ w. not (text_elem w exclude)) words

candidates : List Text → List Text
candidates pool = if ltb 0 (length pool) then pool else words

unfoldable pub pick_word : ℕ → List Text → Text
unfolding pool candidates
pick_word roll exclude =
    or_else (get_elem? (candidates (pool exclude)) (roll % length (candidates (pool exclude)))) []
