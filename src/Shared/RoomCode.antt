-- ===== src/Shared/RoomCode.antt =====
-- packages/shared/src/index.ts: room codes. The runtime's Unicode upper-casing is a parameter;
-- what the code relies on is that it maps ASCII text letter by letter.
pub mod Laws
pub mod Spelling
use gacha_mind.Base.{
  ℕ, ◌+◌, ◌-◌, ◌%◌, ◌≡◌, ◌<◌, Bool, true, false, ◌&&◌, ◌||◌, not, List, [], ◌∷◌, map, Option, none,
  some, Text, codes, keep, elem, length, get_elem?, or_else, leb, ◌==◌, if◌then◌else◌, All,
}

unfoldable pub room_code_alphabet : Text
room_code_alphabet = codes "0123456789ABCDEFGHJKMNPQRSTVWXYZ"

abbrev pub room_code_length : ℕ
room_code_length = 5

-- The bytes are those that `crypto.getRandomValues` fills in; `byte & 31` is the remainder by 32.
unfoldable pub generate_room_code : List ℕ → Text
generate_room_code [] = []
generate_room_code (byte ∷ bytes) =
    or_else (get_elem? room_code_alphabet (byte % 32)) 0 ∷ generate_room_code bytes

-- `/[0-9A-Z]/`
unfoldable pub is_alphanumeric : ℕ → Bool
is_alphanumeric c = (leb b'0' c && leb c b'9') || (leb b'A' c && leb c b'Z')

-- `.replace(/[IL]/g, "1").replace(/O/g, "0")` on one code unit.
unfoldable pub repair : ℕ → ℕ
repair c = if c == b'I' || c == b'L' then b'1' else if c == b'O' then b'0' else c

unfoldable pub normalize_room_code : (Text → Text) → Text → Text
unfolding repair is_alphanumeric
normalize_room_code upper input = map repair (keep is_alphanumeric (upper input))

every_in : Text → Text → Bool
every_in [] alphabet = true
every_in (c ∷ s) alphabet = elem c alphabet && every_in s alphabet

unfoldable pub is_room_code : Text → Bool
unfolding every_in
is_room_code code = length code == room_code_length && every_in code room_code_alphabet

-- `toUpperCase` on one ASCII code unit.
unfoldable pub ascii_upper : ℕ → ℕ
ascii_upper c = if leb b'a' c && leb c b'z' then c - 32 else c

abbrev pub IsAscii : Text → Type 0
IsAscii s = All (λ c. c < 128) s

-- The documented behaviour of `toUpperCase` on ASCII text.
abbrev pub UpperOnAscii : (Text → Text) → Type 0
UpperOnAscii upper = (s : Text) → IsAscii s → upper s ≡ map ascii_upper s
