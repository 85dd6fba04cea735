-- ===== src/Shared/RoomCode/Laws.antt =====
-- What normalising a room code yields, and that generated codes are valid and stable.
use gacha_mind.Base.{
  ℕ, zero, suc, ◌%◌, ◌<◌, ◌≡◌, ◌≢◌, refl, ap, Bool, true, ◌&&◌, List, [], ◌∷◌, map, arith, Text,
  keep, elem, length, get_elem?, or_else, All, every, every-elem, leb,
}
use gacha_mind.Shared.RoomCode.{
  room_code_alphabet, generate_room_code, is_alphanumeric, repair, normalize_room_code, every_in,
  is_room_code, ascii_upper, IsAscii, UpperOnAscii,
}

-- A letter or digit that is none of the three that read like a digit.
abbrev pub IsPlain : ℕ → Type 0
IsPlain c = (is_alphanumeric c ≡ true) × (c ≢ b'I') × (c ≢ b'L') × (c ≢ b'O')

repair-IsPlain : (c : ℕ) → is_alphanumeric c ≡ true → IsPlain (repair c)
unfolding repair is_alphanumeric
repair-IsPlain c h = ground arith

repair_of_IsPlain : (c : ℕ) → IsPlain c → repair c ≡ c
unfolding repair
repair_of_IsPlain c h = ground arith

repaired-IsPlain : (s : Text) → All IsPlain (map repair (keep is_alphanumeric s))
repaired-IsPlain [] = tt
repaired-IsPlain (c ∷ s) = ground (arith, repair-IsPlain c, repaired-IsPlain s)

-- Whatever was typed and whatever the upper-casing does, the normal form has only digits and
-- upper-case letters other than I, L and O.
pub normalize_room_code-IsPlain :
    (upper : Text → Text) (s : Text) → All IsPlain (normalize_room_code upper s)
unfolding normalize_room_code
normalize_room_code-IsPlain upper s = repaired-IsPlain (upper s)

IsPlain-ascii : (c : ℕ) → IsPlain c → c < 128
unfolding is_alphanumeric
IsPlain-ascii c h = ground arith

ascii_upper_of_IsPlain : (c : ℕ) → IsPlain c → ascii_upper c ≡ c
unfolding is_alphanumeric ascii_upper
ascii_upper_of_IsPlain c h = ground arith

plain-IsAscii : (s : Text) → All IsPlain s → IsAscii s
plain-IsAscii [] h = tt
plain-IsAscii (c ∷ s) h = (IsPlain-ascii c h.0, plain-IsAscii s h.1)

plain_fixed : (s : Text) → All IsPlain s → map repair (keep is_alphanumeric (map ascii_upper s)) ≡ s
plain_fixed [] h = refl
plain_fixed (c ∷ s) h =
    ground (arith, ascii_upper_of_IsPlain c h.0, repair_of_IsPlain c h.0, plain_fixed s h.1)

normalize_of_plain :
    (upper : Text → Text) (s : Text)
    → UpperOnAscii upper
    → All IsPlain s
    → normalize_room_code upper s ≡ s
unfolding normalize_room_code
normalize_of_plain upper s u h = rw (u s (plain-IsAscii s h)) (plain_fixed s h)

-- Normalising twice is normalising once, if upper-casing maps ASCII text letter by letter.
pub normalize_room_code_idempotent :
    (upper : Text → Text) (s : Text)
    → UpperOnAscii upper
    → normalize_room_code upper (normalize_room_code upper s) ≡ normalize_room_code upper s
normalize_room_code_idempotent upper s u =
    normalize_of_plain upper (normalize_room_code upper s) u (normalize_room_code-IsPlain upper s)

is_plain : ℕ → Bool
is_plain c =
    is_alphanumeric c && leb (repair c) c && leb c (repair c) && leb (ascii_upper c) c && leb c 127

alphabet_plain : every is_plain room_code_alphabet ≡ true
unfolding every is_plain room_code_alphabet is_alphanumeric repair ascii_upper
alphabet_plain = refl

pub alphabet-IsPlain : (c : ℕ) → elem c room_code_alphabet ≡ true → IsPlain c
unfolding is_plain is_alphanumeric repair
alphabet-IsPlain c h = ground (arith, every-elem is_plain c room_code_alphabet alphabet_plain h)

elem-get_elem? : (xs : List ℕ) (i : ℕ) → i < length xs → elem (or_else (get_elem? xs i) 0) xs ≡ true
unfolding elem
elem-get_elem? [] i h = elim h [ ]
elem-get_elem? (x ∷ xs) zero h = ground arith
elem-get_elem? (x ∷ xs) (suc i) h = ground (arith, elem-get_elem? xs i (omega arith))

drawn-elem :
    (byte : ℕ)
    → elem (or_else (get_elem? room_code_alphabet (byte % 32)) 0) room_code_alphabet ≡ true
drawn-elem byte = elem-get_elem? room_code_alphabet (byte % 32) drawn_within
  where
    drawn_within : byte % 32 < length room_code_alphabet
    drawn_within = unfold room_code_alphabet in omega arith

generated-every_in :
    (bytes : List ℕ) → every_in (generate_room_code bytes) room_code_alphabet ≡ true
unfolding every_in generate_room_code
generated-every_in [] = refl
generated-every_in (b ∷ bytes) = ground (arith, drawn-elem b, generated-every_in bytes)

length-generate : (bytes : List ℕ) → length (generate_room_code bytes) ≡ length bytes
unfolding generate_room_code
length-generate [] = refl
length-generate (b ∷ bytes) = ap suc (length-generate bytes)

generated-IsPlain : (bytes : List ℕ) → All IsPlain (generate_room_code bytes)
unfolding generate_room_code
generated-IsPlain [] = tt
generated-IsPlain (b ∷ bytes) = (alphabet-IsPlain _ (drawn-elem b), generated-IsPlain bytes)

-- From any five random bytes the generated code passes `isRoomCode`; and normalising leaves it
-- alone, if upper-casing maps ASCII text letter by letter.
pub generate_room_code_valid :
    (upper : Text → Text) (bytes : List ℕ)
    → UpperOnAscii upper
    → length bytes ≡ 5
    → (is_room_code (generate_room_code bytes) ≡ true)
      × (normalize_room_code upper (generate_room_code bytes) ≡ generate_room_code bytes)
unfolding is_room_code
generate_room_code_valid upper bytes u h = (
  ground (arith, generated-every_in bytes, length-generate bytes),
  normalize_of_plain upper _ u (generated-IsPlain bytes),
)
