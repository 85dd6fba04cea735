-- ===== src/Web/DrawCanvas/Laws.antt =====
-- The segments of a stroke give the stroke.
use gacha_mind.Base.{
  append_assoc, append-nil, ℕ, ◌≡◌, refl, sym, ap, ◌∙◌, true, List, [], ◌∷◌, ◌++◌, map,
}
use gacha_mind.Shared.Protocol.{Point, StrokeSegment}
use gacha_mind.Web.DrawCanvas.{Canvas, final, flush, handle_pointer_move, choose_style}

-- What may come between pressing and releasing the pointer.
pub data Motion : Type 0 where
  moves : Point → Motion
  frame : Motion
  restyles : List ℕ → ℕ → Motion

unfoldable pub on_motion : Motion → Canvas → Canvas
on_motion (moves p) c = handle_pointer_move true p c
on_motion frame c = flush c
on_motion (restyles color width) c = choose_style color width c

unfoldable pub on_motions : List Motion → Canvas → Canvas
on_motions [] c = c
on_motions (m ∷ ms) c = on_motions ms (on_motion m c)

-- The points to which the pointer moved.
unfoldable pub trail : List Motion → List Point
trail [] = []
trail (moves p ∷ ms) = p ∷ trail ms
trail (frame ∷ ms) = trail ms
trail (restyles color width ∷ ms) = trail ms

abbrev pub pieces : List StrokeSegment → List (List Point)
pieces = map λ s. s.points

abbrev rest_of : List Point → List Point
rest_of [] = []
rest_of (p ∷ ps) = ps

abbrev glue : List Point → List (List Point) → List Point
glue ps [] = ps
glue ps (qs ∷ pss) = glue (ps ++ rest_of qs) pss

-- The line through the pieces, where a piece begins at the last point of the one before.
abbrev pub path : List (List Point) → List Point
path [] = []
path (ps ∷ pss) = glue ps pss

abbrev Meets : List Point → List Point → Type 0
Meets [] qs = ⊥
Meets (p ∷ ps) [] = ⊥
Meets (p ∷ ps) (q ∷ qs) = final p ps ≡ q

abbrev Follows : List Point → List (List Point) → Type 0
Follows ps [] = Unit
Follows ps (qs ∷ pss) = Meets ps qs × Follows qs pss

abbrev pub IsChained : List (List Point) → Type 0
IsChained [] = Unit
IsChained (ps ∷ pss) = Follows ps pss

glue-snoc :
    (ps : List Point) (pss : List (List Point)) (qs : List Point)
    → glue ps (pss ++ qs ∷ []) ≡ glue ps pss ++ rest_of qs
glue-snoc ps [] qs = refl
glue-snoc ps (rs ∷ pss) qs = glue-snoc (ps ++ rest_of rs) pss qs

-- A point added to the last piece is added to the path.
pub path-grows :
    (pss : List (List Point)) (h : Point) (t : List Point) (q : Point)
    → path (pss ++ (h ∷ (t ++ q ∷ [])) ∷ []) ≡ path (pss ++ (h ∷ t) ∷ []) ++ q ∷ []
path-grows [] h t q = refl
path-grows (ps ∷ pss) h t q =
    glue-snoc ps pss (h ∷ (t ++ q ∷ []))
    ∙ sym (append_assoc (glue ps pss) t (q ∷ []))
    ∙ ap (λ l. l ++ q ∷ []) (sym (glue-snoc ps pss (h ∷ t)))

-- A last piece of one point adds none, if there is another before it.
pub path-single :
    (ps : List Point) (pss : List (List Point)) (q : Point)
    → path ((ps ∷ pss) ++ (q ∷ []) ∷ []) ≡ path (ps ∷ pss)
path-single ps pss q = glue-snoc ps pss (q ∷ []) ∙ append-nil (glue ps pss)

pub path-next :
    (pss : List (List Point)) (ps : List Point) (q : Point)
    → path ((pss ++ ps ∷ []) ++ (q ∷ []) ∷ []) ≡ path (pss ++ ps ∷ [])
path-next [] ps q = path-single ps [] q
path-next (qs ∷ pss) ps q = path-single qs (pss ++ ps ∷ []) q

pub pieces-snoc :
    (ss : List StrokeSegment) (s : StrokeSegment)
    → pieces (ss ++ s ∷ []) ≡ pieces ss ++ s.points ∷ []
pieces-snoc [] s = refl
pieces-snoc (r ∷ ss) s = ap (◌∷◌ r.points) (pieces-snoc ss s)

Follows-same :
    (ps : List Point) (pss : List (List Point)) (h : Point) (t t' : List Point)
    → Follows ps (pss ++ (h ∷ t) ∷ [])
    → Follows ps (pss ++ (h ∷ t') ∷ [])
Follows-same [] [] h t t' f = f
Follows-same (p ∷ ps) [] h t t' f = f
Follows-same ps (qs ∷ pss) h t t' f = (f.0, Follows-same qs pss h t t' f.1)

-- Whether the pieces are chained does not turn on what Follows the first point of the last.
pub IsChained-same :
    (pss : List (List Point)) (h : Point) (t t' : List Point)
    → IsChained (pss ++ (h ∷ t) ∷ [])
    → IsChained (pss ++ (h ∷ t') ∷ [])
IsChained-same [] h t t' f = tt
IsChained-same (ps ∷ pss) h t t' f = Follows-same ps pss h t t' f

Follows-next :
    (ps : List Point) (pss : List (List Point)) (h : Point) (t : List Point)
    → Follows ps (pss ++ (h ∷ t) ∷ [])
    → Follows ps ((pss ++ (h ∷ t) ∷ []) ++ (final h t ∷ []) ∷ [])
Follows-next ps [] h t f = (f.0, (refl, tt))
Follows-next ps (qs ∷ pss) h t f = (f.0, Follows-next qs pss h t f.1)

pub IsChained-next :
    (pss : List (List Point)) (h : Point) (t : List Point)
    → IsChained (pss ++ (h ∷ t) ∷ [])
    → IsChained ((pss ++ (h ∷ t) ∷ []) ++ (final h t ∷ []) ∷ [])
IsChained-next [] h t f = (refl, tt)
IsChained-next (ps ∷ pss) h t f = Follows-next ps pss h t f

Follows-init :
    (ps : List Point) (pss : List (List Point)) (qs : List Point)
    → Follows ps (pss ++ qs ∷ [])
    → Follows ps pss
Follows-init ps [] qs f = tt
Follows-init ps (rs ∷ pss) qs f = (f.0, Follows-init rs pss qs f.1)

pub IsChained-init :
    (pss : List (List Point)) (qs : List Point) → IsChained (pss ++ qs ∷ []) → IsChained pss
IsChained-init [] qs f = tt
IsChained-init (ps ∷ pss) qs f = Follows-init ps pss qs f
