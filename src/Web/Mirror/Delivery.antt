-- ===== src/Web/Mirror/Delivery.antt =====
-- Which messages of a broadcast or a send a player gets, and what the browser makes of them.
use gacha_mind.Base.{
  ℕ, suc, ◌+◌, ◌≡◌, refl, sym, subst, ap, ◌∙◌, inl, inr, Bool, true, false, ◌&&◌, not, List, [],
  ◌∷◌, ◌++◌, Option, none, some, arith, length, elem, ◌==◌, if◌then◌else◌, Bool-cases, Distinct,
  ==→eq,
}
use gacha_mind.Shared.Protocol.{ServerToClientMessage}
use gacha_mind.GameSession.Room.{
  Player, Effect, Session, ids, find_player, is_drawer, deliver_one, deliver_to, deliveries, send,
  broadcast, emit,
}
use gacha_mind.GameSession.Room.Laws.{find_player-some}
use gacha_mind.GameSession.Invariant.Seats.{seats, listens}
use gacha_mind.Web.RoomSocket.{Client, receive}
use gacha_mind.Web.Mirror.{addressed, cons_some, mail, receive_from, view, Hears}

cons_some-append :
    (o : Option ServerToClientMessage) (ms ns : List ServerToClientMessage)
    → cons_some o (ms ++ ns) ≡ cons_some o ms ++ ns
unfolding cons_some
cons_some-append none ms ns = refl
cons_some-append (some m) ms ns = refl

pub mail-append : (id : ℕ) (xs ys : List Effect) → mail id (xs ++ ys) ≡ mail id xs ++ mail id ys
unfolding mail
mail-append id [] ys = refl
mail-append id (e ∷ xs) ys =
    rw (mail-append id xs ys) (cons_some-append (addressed id e) (mail id xs) (mail id ys))

receive_from-append :
    (clock : ℕ → ℕ) (k : ℕ) (ms ns : List ServerToClientMessage) (c : Client)
    → receive_from clock k (ms ++ ns) c
      ≡ receive_from clock (k + length ms) ns (receive_from clock k ms c)
unfolding receive_from
receive_from-append clock k [] ns c =
    let same : k + 0 ≡ k = omega arith in ap (λ n. receive_from clock n ns c) (sym same)
receive_from-append clock k (m ∷ ms) ns c =
    let same : suc k + length ms ≡ k + suc (length ms) = omega arith in
    let later = receive (clock k) m c in
    receive_from-append clock (suc k) ms ns later
    ∙ ap (λ n. receive_from clock n ns (receive_from clock (suc k) ms later)) same

-- Nobody listens under an identifier that no player has.
pub listens-elem :
    (id : ℕ) (ps : List Player) → elem id (ids ps) ≡ false → listens id (seats ps) ≡ false
unfolding listens elem
listens-elem id [] h = refl
listens-elem id (p ∷ ps) h = ground (arith, listens-elem id ps)

listens-find_player :
    (id : ℕ) (ps : List Player) (p : Player)
    → find_player id ps ≡ some p
    → listens id (seats ps) ≡ p.is_open
unfolding listens find_player
listens-find_player id [] p e = cc
listens-find_player id (q ∷ ps) p e = ground (arith, listens-find_player id ps p)

mail-deliver_one :
    (id : ℕ) (m : ServerToClientMessage) (p : Player)
    → mail id (deliver_one m p) ≡ (if p.id == id && p.is_open then m ∷ [] else [])
unfolding mail deliver_one addressed cons_some
mail-deliver_one id m p = ground arith

-- What one player's turn in a broadcast gives.
mail-turn :
    (id : ℕ) (m : ServerToClientMessage) (out : Bool) (p : Player)
    → mail id (if out then [] else deliver_one m p)
      ≡ (if not out && (p.id == id && p.is_open) then m ∷ [] else [])
unfolding mail
mail-turn id m true p = refl
mail-turn id m false p = mail-deliver_one id m p

mail-deliveries :
    (id : ℕ) (m : ServerToClientMessage) (excluded : Option ℕ) (ps : List Player)
    → Distinct (ids ps)
    → mail id (deliveries m excluded ps)
      ≡ (if not (is_drawer excluded id) && listens id (seats ps) then m ∷ [] else [])
unfolding deliveries listens mail
mail-deliveries id m excluded [] d = ground arith
mail-deliveries id m excluded (p ∷ ps) d =
    mail-append id (if is_drawer excluded p.id then [] else deliver_one m p)
      (deliveries m excluded ps)
    ∙ rw (mail-turn id m (is_drawer excluded p.id) p, mail-deliveries id m excluded ps d.1)
        (elim (Bool-cases (p.id == id)) [
          | inl same ↦
              let eq : p.id ≡ id = ==→eq p.id id same in
              let none_left : listens id (seats ps) ≡ false =
                listens-elem id ps (subst (λ x. elem x (ids ps) ≡ false) eq d.0) in
              rw (same, none_left, ap (is_drawer excluded) eq) (ground arith)
          | inr other ↦ rw other (ground arith)
        ])

view-append :
    (clock : ℕ → ℕ) (id : ℕ) (c : Client) (xs ys : List Effect)
    → view clock id c (xs ++ ys)
      ≡ receive_from clock (length (mail id xs)) (mail id ys) (view clock id c xs)
unfolding view
view-append clock id c xs ys =
    ap (λ ms. receive_from clock 0 ms c) (mail-append id xs ys)
    ∙ receive_from-append clock 0 (mail id xs) (mail id ys) c
    ∙ ap (λ n. receive_from clock n (mail id ys) (receive_from clock 0 (mail id xs) c))
        (omega arith)

-- What holds of the browser after each way to send, `P` being a predicate on it.
module _ (clock : ℕ → ℕ) (id : ℕ) (c : Client) (P : Client → Type 0) where
  view_one :
      (log es : List Effect) (m : ServerToClientMessage)
      → mail id es ≡ m ∷ []
      → ((now : ℕ) → P (receive now m (view clock id c log)))
      → P (view clock id c (log ++ es))
  view_one log es m e h =
      subst P (sym (view-append clock id c log es))
        (rw e (unfold receive_from in h (clock (length (mail id log)))))

  pub view_none :
      (log es : List Effect)
      → mail id es ≡ []
      → P (view clock id c log)
      → P (view clock id c (log ++ es))
  view_none log es e h =
      subst P (sym (view-append clock id c log es)) (rw e (unfold receive_from in h))

  pub view-broadcast :
      (m : ServerToClientMessage) (excluded : Option ℕ) (s : Session)
      → Hears id s.room
      → is_drawer excluded id ≡ false
      → ((now : ℕ) → P (receive now m (view clock id c s.log)))
      → P (view clock id c (broadcast m excluded s).log)
  unfolding broadcast
  view-broadcast m excluded s h kept =
      view_one s.log (deliveries m excluded s.room.players) m
        (mail-deliveries id m excluded s.room.players h.unique ∙ rw (kept, h.open_seat))

  pub view-broadcast_out :
      (m : ServerToClientMessage) (excluded : Option ℕ) (s : Session)
      → Hears id s.room
      → is_drawer excluded id ≡ true
      → P (view clock id c s.log)
      → P (view clock id c (broadcast m excluded s).log)
  unfolding broadcast
  view-broadcast_out m excluded s h out =
      view_none s.log (deliveries m excluded s.room.players)
        (mail-deliveries id m excluded s.room.players h.unique ∙ rw out)

  mail-deliver_to :
      (x : ℕ) (m : ServerToClientMessage) (ps : List Player) (found : Option Player)
      → find_player x ps ≡ found
      → (x == id) ≡ false
      → mail id (deliver_to m found) ≡ []
  unfolding deliver_to mail
  mail-deliver_to x m ps none f e = refl
  mail-deliver_to x m ps (some p) f e =
      mail-deliver_one id m p ∙ rw ((find_player-some x ps p f).0, e)

  pub view-send_other :
      (x : ℕ) (m : ServerToClientMessage) (s : Session)
      → (x == id) ≡ false
      → P (view clock id c s.log)
      → P (view clock id c (send x m s).log)
  unfolding send
  view-send_other x m s e =
      view_none s.log (deliver_to m (find_player x s.room.players))
        (mail-deliver_to x m s.room.players (find_player x s.room.players) refl e)

  pub view-send :
      (x : ℕ) (m : ServerToClientMessage) (s : Session) (p : Player)
      → (x == id) ≡ true
      → find_player x s.room.players ≡ some p
      → Hears id s.room
      → ((now : ℕ) → P (receive now m (view clock id c s.log)))
      → P (view clock id c (send x m s).log)
  unfolding send deliver_to
  view-send x m s p e f h =
      let seen : p.is_open ≡ true =
        sym (listens-find_player x s.room.players p f) ∙ rw (==→eq x id e) h.open_seat in
      rw f (
        view_one s.log (deliver_one m p) m
          (mail-deliver_one id m p ∙ rw ((find_player-some x s.room.players p f).0, e, seen)))

  pub view-emit :
      (e : Effect) (s : Session)
      → addressed id e ≡ none
      → P (view clock id c s.log)
      → P (view clock id c (emit e s).log)
  unfolding emit
  view-emit e s a = view_none s.log (e ∷ []) (unfold mail in rw a (unfold cons_some in refl))
