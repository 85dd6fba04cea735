-- ===== src/Shared/RoomCode/Spelling.antt =====
-- Codes that people write down and type in again.
use gacha_mind.Base.{
  ℕ, ◌+◌, ◌≤◌, ◌<◌, ◌≡◌, ◌⊎◌, false, true, [], ◌∷◌, map, keep, refl, arith, Text, elem,
}
use gacha_mind.Shared.RoomCode.{
  room_code_alphabet, is_alphanumeric, repair, normalize_room_code, ascii_upper, IsAscii,
  UpperOnAscii,
}
use gacha_mind.Shared.RoomCode.Laws.{IsPlain, alphabet-IsPlain}

-- The ways in which a person may write a code down: separators anywhere, lower case, and the
-- look-alikes of 0 and 1.
pub data Spells : Text → Text → Type 0 where
  done : Spells [] []
  apart :
      (c : ℕ) {code s : Text}
      → c < 128
      → is_alphanumeric (ascii_upper c) ≡ false
      → Spells code s
      → Spells code (c ∷ s)
  exact :
      (c : ℕ) {code s : Text}
      → elem c room_code_alphabet ≡ true
      → Spells code s
      → Spells (c ∷ code) (c ∷ s)
  lower :
      (c : ℕ) {code s : Text}
      → elem c room_code_alphabet ≡ true
      → b'A' ≤ c
      → Spells code s
      → Spells (c ∷ code) ((c + 32) ∷ s)
  zero_as_o :
      (c : ℕ) {code s : Text}
      → (c ≡ b'o') ⊎ (c ≡ b'O')
      → Spells code s
      → Spells (b'0' ∷ code) (c ∷ s)
  one_as_l :
      (c : ℕ) {code s : Text}
      → (c ≡ b'i') ⊎ (c ≡ b'I') ⊎ (c ≡ b'l') ⊎ (c ≡ b'L')
      → Spells code s
      → Spells (b'1' ∷ code) (c ∷ s)

abbrev canonical : Text → Text
canonical s = map repair (keep is_alphanumeric (map ascii_upper s))

exact_fixed :
    (c : ℕ)
    → IsPlain c
    → (ascii_upper c ≡ c) × (is_alphanumeric c ≡ true) × (repair c ≡ c) × (c < 128)
unfolding is_alphanumeric ascii_upper repair
exact_fixed c h = ground arith

lower_fixed : (c : ℕ) → IsPlain c → b'A' ≤ c → (ascii_upper (c + 32) ≡ c) × (c + 32 < 128)
unfolding is_alphanumeric ascii_upper
lower_fixed c h a = ground arith

Spells-canonical : {code s : Text} → Spells code s → IsAscii s × (canonical s ≡ code)
unfolding is_alphanumeric ascii_upper repair
Spells-canonical done = (tt, refl)
Spells-canonical (apart c a h w) = ground (arith, Spells-canonical w)
Spells-canonical (exact c e w) =
    ground (arith, exact_fixed c (alphabet-IsPlain c e), Spells-canonical w)
Spells-canonical (lower c e a w) = ground (
  arith,
  exact_fixed c (alphabet-IsPlain c e),
  lower_fixed c (alphabet-IsPlain c e) a,
  Spells-canonical w,
)
Spells-canonical (zero_as_o c h w) = ground (arith, Spells-canonical w)
Spells-canonical (one_as_l c h w) = ground (arith, Spells-canonical w)

-- Whichever of these ways a code is written down in, the normal form is the code itself, if
-- upper-casing maps ASCII text letter by letter.
pub normalize-Spells :
    (upper : Text → Text) (code s : Text)
    → UpperOnAscii upper
    → Spells code s
    → normalize_room_code upper s ≡ code
unfolding normalize_room_code
normalize-Spells upper code s u w = let (ascii, same) = Spells-canonical w in rw (u s ascii) same
