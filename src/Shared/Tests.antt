-- ===== src/Shared/Tests.antt =====
-- Room codes that are typed in, and one that is generated.
use gacha_mind.Base.{
  ℕ, ◌≡◌, refl, inl, inr, true, List, [], ◌∷◌, map, arith, Text, codes, All, elem,
}
use gacha_mind.Shared.RoomCode.{
  room_code_alphabet, generate_room_code, is_alphanumeric, normalize_room_code, is_room_code,
  ascii_upper, UpperOnAscii,
}
use gacha_mind.Shared.RoomCode.Laws.{
  IsPlain, normalize_room_code-IsPlain, normalize_room_code_idempotent, generate_room_code_valid,
}
use gacha_mind.Shared.RoomCode.Spelling.{
  Spells, done, apart, exact, lower, zero_as_o, one_as_l, normalize-Spells,
}

abbrev upper : Text → Text
upper s = map ascii_upper s

upper-UpperOnAscii : UpperOnAscii upper
upper-UpperOnAscii s ascii = refl

abbrev typed : Text
typed = codes "a-oL5B"

typed-Spells : Spells (codes "A015B") typed
unfolding is_alphanumeric ascii_upper room_code_alphabet elem
typed-Spells = lower b'A' refl (omega arith) (
    apart b'-' (omega arith) refl (
      zero_as_o b'o' (inl refl)
        (one_as_l b'L' (inr (inr (inr refl))) (exact b'5' refl (exact b'B' refl done)))))

normalize-Spells_example : normalize_room_code upper typed ≡ codes "A015B"
normalize-Spells_example =
    normalize-Spells upper (codes "A015B") typed upper-UpperOnAscii typed-Spells

abbrev bytes : List ℕ
bytes = 255 ∷ 0 ∷ 33 ∷ 64 ∷ 17 ∷ []

generate_room_code_valid_example :
    (is_room_code (generate_room_code bytes) ≡ true)
    × (normalize_room_code upper (generate_room_code bytes) ≡ generate_room_code bytes)
generate_room_code_valid_example = generate_room_code_valid upper bytes upper-UpperOnAscii refl

normalize_room_code_idempotent_example :
    normalize_room_code upper (normalize_room_code upper typed) ≡ normalize_room_code upper typed
normalize_room_code_idempotent_example =
    normalize_room_code_idempotent upper typed upper-UpperOnAscii

normalize_room_code-IsPlain_example : All IsPlain (normalize_room_code upper typed)
normalize_room_code-IsPlain_example = normalize_room_code-IsPlain upper typed
