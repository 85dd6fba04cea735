-- ===== src/Gateway/Shard.antt =====
-- Which requests name a process.
use gacha_mind.Base.{
  ℕ, ◌≡◌, ◌↔◌, refl, sym, subst, ap, ◌∙◌, inl, inr, true, false, [], ◌∷◌, ◌++◌, Option, none, some,
  Text, arith, All, ◌==◌, ==→eq, ==_refl, Bool-cases,
}
use gacha_mind.Gateway.{
  is_shard_char, take_name, ends_name, named, strip_prefix, shard_after, gs_prefix, shard_from_url,
}

-- A name of a process that the gateway accepts.
pub record IsName (s : Text) : Type 0 where
  pub head : ℕ
  pub tail : Text
  pub same : s ≡ head ∷ tail
  pub chars : All (λ c. is_shard_char c ≡ true) s

strip_prefix-append : (p s : Text) → strip_prefix p (p ++ s) ≡ some s
unfolding strip_prefix
strip_prefix-append [] s = refl
strip_prefix-append (c ∷ p) s = rw (==_refl c) (strip_prefix-append p s)

strip_prefix-some : (p url s : Text) → strip_prefix p url ≡ some s → url ≡ p ++ s
unfolding strip_prefix
strip_prefix-some [] url s e = cc
strip_prefix-some (c ∷ p) [] s e = cc
strip_prefix-some (c ∷ p) (d ∷ url) s e = elim (Bool-cases (c == d)) [
  | inl same ↦
      ap (λ k. k ∷ url) (sym (==→eq c d same))
      ∙ ap (◌∷◌ c) (strip_prefix-some p url s (rw same at e))
  | inr other ↦ absurd (none_some (rw other at e))
]
  where
    none_some : {A : Type 0} {x : A} → none ≡ some x → ⊥
    none_some e = cc

-- The separators are no characters of a name.
ends_name-stops : (rest : Text) → ends_name rest ≡ true → take_name rest ≡ ([], rest)
unfolding ends_name take_name is_shard_char
ends_name-stops [] e = refl
ends_name-stops (c ∷ rest) e = let stop : is_shard_char c ≡ false = ground arith in rw stop refl

take_name-append :
    (s rest : Text)
    → All (λ c. is_shard_char c ≡ true) s
    → ends_name rest ≡ true
    → take_name (s ++ rest) ≡ (s, rest)
unfolding take_name
take_name-append [] rest h e = ends_name-stops rest e
take_name-append (c ∷ s) rest h e = rw (h.0, take_name-append s rest h.1 e) refl

take_name-parts :
    (s : Text)
    → (s ≡ (take_name s).0 ++ (take_name s).1) × All (λ c. is_shard_char c ≡ true) (take_name s).0
unfolding take_name
take_name-parts [] = (refl, tt)
take_name-parts (c ∷ s) = elim (Bool-cases (is_shard_char c)) [
  | inl good ↦ rw good (ap (◌∷◌ c) (take_name-parts s).0, (good, (take_name-parts s).1))
  | inr bad ↦ rw bad (refl, tt)
]

named-IsName :
    (p : Text × Text) (shard : Text)
    → named p ≡ some shard
    → All (λ c. is_shard_char c ≡ true) p.0
    → IsName shard × (p.0 ≡ shard) × (ends_name p.1 ≡ true)
unfolding named
named-IsName ([], rest) shard e h = cc
named-IsName (c ∷ name, rest) shard e h = elim (Bool-cases (ends_name rest)) [
  | inr goes_on ↦ absurd (none_some (rw goes_on at e))
  | inl ends ↦
      let same : c ∷ name ≡ shard = some_inj (rw ends at e) in
      (
        record {
          head = c;
          tail = name;
          same = sym same;
          chars = subst (All (λ k. is_shard_char k ≡ true)) same h;
        },
        same,
        ends,
      )
]
  where
    none_some : {x : Text} → none ≡ some x → ⊥
    none_some e = cc

    some_inj : {x y : Text} → some x ≡ some y → x ≡ y
    some_inj e = cc

shard_after-some :
    (o : Option Text) (shard : Text)
    → shard_after o ≡ some shard
    → (s : Text) × (o ≡ some s) × (named (take_name s) ≡ some shard)
unfolding shard_after
shard_after-some none shard e = cc
shard_after-some (some s) shard e = (s, refl, e)

-- The part of a URL after the name of a process.
abbrev pub Names : Text → Text → Type 0
Names url shard =
    IsName shard × ((rest : Text) × (ends_name rest ≡ true) × (url ≡ gs_prefix ++ (shard ++ rest)))

url-Names : (url shard : Text) → shard_from_url (some url) ≡ some shard → Names url shard
unfolding shard_from_url
url-Names url shard e =
    let (s, stripped, name) = shard_after-some (strip_prefix gs_prefix url) shard e in
    let (parts, chars) = take_name-parts s in
    let (is_name, same, ends) = named-IsName (take_name s) shard name chars in
    (
      is_name,
      (
        (take_name s).1,
        ends,
        strip_prefix-some gs_prefix url s stripped
            ∙ ap (λ t. gs_prefix ++ t) (parts ∙ ap (λ n. n ++ (take_name s).1) same),
      ),
    )

named-some :
    (s shard rest : Text)
    → IsName shard
    → s ≡ shard ++ rest
    → ends_name rest ≡ true
    → named (take_name s) ≡ some shard
unfolding named
named-some s shard rest n e ends =
    ap (λ t. named (take_name t)) e
    ∙ ap named (take_name-append shard rest n.chars ends)
    ∙ rw (n.same, ends) refl

Names-url : (url shard : Text) → Names url shard → shard_from_url (some url) ≡ some shard
unfolding shard_from_url shard_after
Names-url url shard (n, (rest, ends, e)) =
    ap (λ u. shard_after (strip_prefix gs_prefix u)) e
    ∙ ap shard_after (strip_prefix-append gs_prefix (shard ++ rest))
    ∙ named-some (shard ++ rest) shard rest n refl ends

-- The gateway takes a request to the process of that name exactly if its URL is "/gs/" and the name,
-- one or more letters, digits, "_" and "-", and then ends or goes on with "/" or "?".
pub shard_from_url_iff :
    (url shard : Text) → (shard_from_url (some url) ≡ some shard) ↔ Names url shard
shard_from_url_iff url shard = (url-Names url shard, Names-url url shard)
