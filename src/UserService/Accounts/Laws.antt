-- ===== src/UserService/Accounts/Laws.antt =====
-- Who has signed up can log in with that password, and nobody else.
use gacha_mind.Base.{
  ℕ, ◌≡◌, ◌≢◌, refl, sym, ◌∙◌, inl, inr, Bool, true, false, ◌&&◌, List, [], ◌∷◌, none, some, Text,
  text_eq, text_eq_iff, text_eq_refl, take, arith, Bool-cases, if◌then◌else◌,
}
use gacha_mind.UserService.Accounts.{
  Services, Account, granted, unauthorized, find_by_username, create_account, issue_token,
  new_account, signup_unless, signup, login_of, login, password_pattern, is_signup,
}

-- What bcrypt documents of printable ASCII: only the first 72 bytes of a password count.
pub record IsBcrypt (w : Services) : Type 0 where
  pub compared :
      (salt : ℕ) (p q : Text)
      → password_pattern p ≡ true
      → password_pattern q ≡ true
      → w.compare p (w.hash salt q) ≡ text_eq (take 72 p) (take 72 q)

find_by_username-create :
    (name : Text) (a : Account) (accounts : List Account)
    → find_by_username a.username accounts ≡ none
    → find_by_username name (create_account a accounts)
      ≡ (if text_eq a.username name then some a else find_by_username name accounts)
unfolding find_by_username create_account
find_by_username-create name a [] free = refl
find_by_username-create name a (b ∷ accounts) free = elim (Bool-cases (text_eq b.username name)) [
  | inr other ↦ rw other (find_by_username-create name a accounts rest)
  | inl found ↦ rw (found, apart found) refl
]
  where
    some_none : {o : Account} → some o ≡ none → ⊥
    some_none e = cc

    rest : find_by_username a.username accounts ≡ none
    rest = ground (arith, free)

    apart : text_eq b.username name ≡ true → text_eq a.username name ≡ false
    apart found = elim (Bool-cases (text_eq a.username name)) [
      | inr other ↦ other
      | inl same ↦
          let eq =
            (text_eq_iff b.username name).0 found ∙ sym ((text_eq_iff a.username name).0 same) in
          let taken : text_eq b.username a.username ≡ true = rw eq (text_eq_refl a.username) in
          absurd (some_none (rw taken at free))
    ]

text_ne : (s t : Text) → s ≢ t → text_eq s t ≡ false
text_ne s t h = elim (Bool-cases (text_eq s t)) [
  | inr other ↦ other
  | inl same ↦ absurd (h ((text_eq_iff s t).0 same))
]

and_right : (a b : Bool) → (a && b) ≡ true → b ≡ true
and_right a b h = ground arith

and_left : (a b : Bool) → (a && b) ≡ true → a ≡ true
and_left a b h = ground arith

module _ (w : Services) where
  signup-password :
      (username nickname password : Text)
      → is_signup w username nickname password ≡ true
      → password_pattern password ≡ true
  unfolding is_signup
  signup-password username nickname password h = and_right _ _ (and_left _ _ (and_right _ _ h))

  -- A valid sign-up under a free name is granted. After it, whoever gives that name and a printable
  -- password logs in, as the new account, exactly if the first 72 characters of the password are those
  -- of the one chosen, and is unauthorized otherwise; a log-in under another name answers as before.
  -- It supposes what bcrypt documents of printable passwords.
  pub signup-login :
      (id salt : ℕ) (username nickname password given name : Text) (accounts : List Account)
      → IsBcrypt w
      → is_signup w username nickname password ≡ true
      → find_by_username username accounts ≡ none
      → password_pattern given ≡ true
      → name ≢ username
      → let (after, outcome) = signup w id salt username nickname password accounts in
        let response = issue_token w (new_account w id salt username nickname password) in
        (outcome ≡ granted response)
        × (login w username given after ≡ (
            if text_eq (take 72 given) (take 72 password) then granted response else unauthorized))
        × (login w name given after ≡ login w name given accounts)
  unfolding signup signup_unless login login_of new_account
  signup-login id salt username nickname password given name accounts k valid free pattern other =
      let a = new_account w id salt username nickname password in
      rw free (
        refl,
        rw
            (
              find_by_username-create username a accounts free,
              text_eq_refl username,
              k.compared salt given password pattern
                  (signup-password username nickname password valid),
            )
            refl,
        rw
            (
              find_by_username-create name a accounts free,
              text_ne username name (λ e. other (sym e)),
            )
            refl,
      )
