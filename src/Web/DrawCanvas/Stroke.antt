-- ===== src/Web/DrawCanvas/Stroke.antt =====
-- From pressing the pointer to releasing it.
use gacha_mind.Base.{
  append_assoc, append-nil, ℕ, suc, ◌≡◌, refl, sym, subst, ap, ◌∙◌, Bool, true, false, List, [],
  ◌∷◌, ◌++◌, length, leb, arith,
}
use gacha_mind.Shared.Protocol.{Point, StrokeSegment}
use gacha_mind.Web.DrawCanvas.{
  Canvas, emit_segment, final, flush_buffer, flush, handle_pointer_down, handle_pointer_move,
  handle_pointer_up, choose_style,
}
use gacha_mind.Web.DrawCanvas.Laws.{
  Motion, moves, frame, restyles, on_motion, on_motions, trail, pieces, path, IsChained, path-grows,
  path-next, path-single, pieces-snoc, IsChained-same, IsChained-next, IsChained-init,
}

abbrev nonempty : List StrokeSegment → Bool
nonempty [] = false
nonempty (s ∷ ss) = true

nonempty-snoc : (ss : List StrokeSegment) (s : StrokeSegment) → nonempty (ss ++ s ∷ []) ≡ true
nonempty-snoc [] s = refl
nonempty-snoc (r ∷ ss) s = refl

two_le : (n : ℕ) → leb 2 (suc (suc n)) ≡ true
two_le n = ground arith

-- The pointer is down, and what was sent of the stroke and what is buffered give the points so far.
record IsUnderway (old : List StrokeSegment) (all : List Point) (c : Canvas) : Type 0 where
  new : List StrokeSegment
  head : Point
  tail : List Point
  sent : c.sent ≡ old ++ new
  drawing : c.drawing ≡ true
  buffer : c.buffer ≡ head ∷ tail
  flushed : c.flushed ≡ nonempty new
  path : path (pieces new ++ (head ∷ tail) ∷ []) ≡ all
  chained : IsChained (pieces new ++ (head ∷ tail) ∷ [])

-- After the segments that were sent before, those of the stroke: each begins at the last point of
-- the one before, and together they run through these points.
pub record HasSent (old : List StrokeSegment) (all : List Point) (c : Canvas) : Type 0 where
  pub new : List StrokeSegment
  pub sent : c.sent ≡ old ++ new
  pub path : path (pieces new) ≡ all
  pub chained : IsChained (pieces new)

down-IsUnderway :
    (p : Point) (c : Canvas) → IsUnderway c.sent (p ∷ []) (handle_pointer_down true p c)
unfolding handle_pointer_down
down-IsUnderway p c = record {
  new = [];
  head = p;
  tail = [];
  sent = sym (append-nil c.sent);
  drawing = refl;
  buffer = refl;
  flushed = refl;
  path = refl;
  chained = tt;
}

module _ (old : List StrokeSegment) (all : List Point) where
  move-IsUnderway :
      (p : Point) (c : Canvas)
      → IsUnderway old all c
      → IsUnderway old (all ++ p ∷ []) (handle_pointer_move true p c)
  unfolding handle_pointer_move
  move-IsUnderway p c u = rw u.drawing (record {
    new = u.new;
    head = u.head;
    tail = u.tail ++ p ∷ [];
    sent = u.sent;
    drawing = refl;
    buffer = ap (λ l. l ++ p ∷ []) u.buffer;
    flushed = u.flushed;
    path = path-grows (pieces u.new) u.head u.tail p ∙ ap (λ l. l ++ p ∷ []) u.path;
    chained = IsChained-same (pieces u.new) u.head u.tail (u.tail ++ p ∷ []) u.chained;
  })

  abbrev segment_of : List Point → Canvas → StrokeSegment
  segment_of ps c = record { points = ps; color = c.color; width = c.width }

  flush_buffer-IsUnderway :
      (h : Point) (t : List Point) (new : List StrokeSegment) (c : Canvas)
      → c.sent ≡ old ++ new
      → c.drawing ≡ true
      → path (pieces new ++ (h ∷ t) ∷ []) ≡ all
      → IsChained (pieces new ++ (h ∷ t) ∷ [])
      → c.buffer ≡ h ∷ t
      → c.flushed ≡ nonempty new
      → IsUnderway old all (flush_buffer (h ∷ t) c)
  unfolding flush_buffer emit_segment final
  flush_buffer-IsUnderway h [] new c s d p k b f = record {
    new = new;
    head = h;
    tail = [];
    sent = s;
    drawing = d;
    buffer = b;
    flushed = f;
    path = p;
    chained = k;
  }
  flush_buffer-IsUnderway h (q ∷ qs) new c s d p k b f =
      let piece = segment_of (h ∷ q ∷ qs) c in
      record {
        new = new ++ piece ∷ [];
        head = final q qs;
        tail = [];
        sent = ap (λ l. l ++ piece ∷ []) s ∙ append_assoc old new (piece ∷ []);
        drawing = d;
        buffer = refl;
        flushed = sym (nonempty-snoc new piece);
        path = rw (pieces-snoc new piece) (path-next (pieces new) (h ∷ q ∷ qs) (final q qs) ∙ p);
        chained = rw (pieces-snoc new piece) (IsChained-next (pieces new) h (q ∷ qs) k);
      }

  flush-IsUnderway : (c : Canvas) → IsUnderway old all c → IsUnderway old all (flush c)
  unfolding flush
  flush-IsUnderway c u =
      subst (λ l. IsUnderway old all (flush_buffer l c)) (sym u.buffer)
        (flush_buffer-IsUnderway u.head u.tail u.new c u.sent u.drawing u.path u.chained u.buffer
          u.flushed)

  -- Releasing sends what is buffered, unless it is the one point that was sent last.
  released-HasSent :
      (h : Point) (t : List Point) (new : List StrokeSegment) (f : Bool) (c : Canvas)
      → c.sent ≡ old ++ new
      → c.drawing ≡ true
      → path (pieces new ++ (h ∷ t) ∷ []) ≡ all
      → IsChained (pieces new ++ (h ∷ t) ∷ [])
      → c.buffer ≡ h ∷ t
      → c.flushed ≡ f
      → f ≡ nonempty new
      → HasSent old all (handle_pointer_up c)
  unfolding handle_pointer_up emit_segment
  released-HasSent h (q ∷ qs) new f c s d p k b g e =
      let piece = segment_of (h ∷ q ∷ qs) c in
      rw (d, b, two_le (length qs))
        (record {
          new = new ++ piece ∷ [];
          sent = ap (λ l. l ++ piece ∷ []) s ∙ append_assoc old new (piece ∷ []);
          path = rw (pieces-snoc new piece) p;
          chained = rw (pieces-snoc new piece) k;
        })
  released-HasSent h [] [] f c s d p k b g e =
      let piece = segment_of (h ∷ []) c in
      rw (d, b, g ∙ e)
        (record {
          new = piece ∷ [];
          sent = ap (λ l. l ++ piece ∷ []) (s ∙ append-nil old);
          path = p;
          chained = tt;
        })
  released-HasSent h [] (n ∷ new) f c s d p k b g e =
      rw (d, b, g ∙ e)
        (record {
          new = n ∷ new;
          sent = s;
          path = sym (path-single n.points (pieces new) h) ∙ p;
          chained = IsChained-init (pieces (n ∷ new)) (h ∷ []) k;
        })

  up-HasSent : (c : Canvas) → IsUnderway old all c → HasSent old all (handle_pointer_up c)
  up-HasSent c u =
      released-HasSent u.head u.tail u.new c.flushed c u.sent u.drawing u.path u.chained u.buffer
        refl u.flushed

motions-IsUnderway :
    (old : List StrokeSegment) (ms : List Motion) (all : List Point) (c : Canvas)
    → IsUnderway old all c
    → IsUnderway old (all ++ trail ms) (on_motions ms c)
unfolding on_motions on_motion trail choose_style
motions-IsUnderway old [] all c u = rw (append-nil all) u
motions-IsUnderway old (moves p ∷ ms) all c u =
    subst (λ l. IsUnderway old l (on_motions ms (handle_pointer_move true p c)))
      (append_assoc all (p ∷ []) (trail ms))
      (motions-IsUnderway old ms (all ++ p ∷ []) _ (move-IsUnderway old all p c u))
motions-IsUnderway old (frame ∷ ms) all c u =
    motions-IsUnderway old ms all _ (flush-IsUnderway old all c u)
motions-IsUnderway old (restyles color width ∷ ms) all c u =
    motions-IsUnderway old ms all _ (record {
      new = u.new;
      head = u.head;
      tail = u.tail;
      sent = u.sent;
      drawing = u.drawing;
      buffer = u.buffer;
      flushed = u.flushed;
      path = u.path;
      chained = u.chained;
    })

-- Whatever frames pass and styles are chosen while the pointer moves, the segments that a player who
-- may draw sends from pressing to releasing it run, each from the last point of the one before,
-- through exactly the points of the pointer, from the first to the last.
pub stroke_lem :
    (p : Point) (ms : List Motion) (c : Canvas)
    → HasSent c.sent
        (p ∷ trail ms)
        (handle_pointer_up (on_motions ms (handle_pointer_down true p c)))
stroke_lem p ms c =
    up-HasSent c.sent (p ∷ trail ms) _
      (motions-IsUnderway c.sent ms (p ∷ []) _ (down-IsUnderway p c))
