-- ===== src/Shared/Answer.antt =====
-- packages/shared/src/index.ts: `normalizeAnswer`. The runtime's Unicode lower-casing of a whole
-- text is a parameter.
use gacha_mind.Base.{not, Text, keep, trim, is_space}

-- `text.replace(/\s+/g, "")`
unfoldable pub drop_spaces : Text → Text
unfolding is_space
drop_spaces s = keep (λ c. not (is_space c)) s

unfoldable pub normalize_answer : (Text → Text) → Text → Text
unfolding drop_spaces trim
normalize_answer lower text = drop_spaces (lower (trim text))
