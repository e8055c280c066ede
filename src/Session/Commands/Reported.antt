-- ===== src/Session/Commands/Reported.antt =====
-- sessions.c: the mask that the notice of MOVE shows.
use k9_chatnet.Common.{
  ℕ, zero, suc, ◌≤◌, ◌<◌, ◌≡◌, refl, sym, ◌∙◌, ap, ◌≢◌, List, [], ◌∷◌, Bytes, Option, none, some,
  length, get_elem?, arith,
}
use k9_chatnet.Common.Int.{pos}
use k9_chatnet.Session.Types.{Exception}
use k9_chatnet.Session.Exceptions.{remove_at}
use k9_chatnet.Session.Commands.{shift, Moved, moved, mask_at, move}
use k9_chatnet.Session.Commands.Moving.{
  insert_at, shift-insert_at, length-remove_at, get_elem?-some, move-runs,
}

get_elem?-insert_at_lt :
    (i n : ℕ) (e : Exception) (es : List Exception)
    → i < n
    → n ≤ length es
    → get_elem? (insert_at n e es) i ≡ get_elem? es i
unfolding insert_at
get_elem?-insert_at_lt i zero e es h k = elim h [ ]
get_elem?-insert_at_lt i (suc n) e [] h k = elim k [ ]
get_elem?-insert_at_lt zero (suc n) e (x ∷ es) h k = refl
get_elem?-insert_at_lt (suc i) (suc n) e (x ∷ es) h k =
    get_elem?-insert_at_lt i n e es (omega arith) (omega arith)

get_elem?-insert_at_gt :
    (i n : ℕ) (e : Exception) (es : List Exception)
    → n ≤ i
    → n ≤ length es
    → get_elem? (insert_at n e es) (suc i) ≡ get_elem? es i
unfolding insert_at
get_elem?-insert_at_gt i zero e es h k = refl
get_elem?-insert_at_gt i (suc n) e [] h k = elim k [ ]
get_elem?-insert_at_gt zero (suc n) e (x ∷ es) h k = elim h [ ]
get_elem?-insert_at_gt (suc i) (suc n) e (x ∷ es) h k =
    get_elem?-insert_at_gt i n e es (omega arith) (omega arith)

get_elem?-remove_at_ge :
    (i n : ℕ) (es : List Exception) → n ≤ i → get_elem? (remove_at es n) i ≡ get_elem? es (suc i)
unfolding remove_at
get_elem?-remove_at_ge i zero [] h = refl
get_elem?-remove_at_ge i (suc n) [] h = refl
get_elem?-remove_at_ge i zero (x ∷ es) h = refl
get_elem?-remove_at_ge zero (suc n) (x ∷ es) h = elim h [ ]
get_elem?-remove_at_ge (suc i) (suc n) (x ∷ es) h = get_elem?-remove_at_ge i n es (omega arith)

get_elem?-remove_at_lt :
    (i n : ℕ) (es : List Exception) → i < n → get_elem? (remove_at es n) i ≡ get_elem? es i
unfolding remove_at
get_elem?-remove_at_lt i zero es h = elim h [ ]
get_elem?-remove_at_lt i (suc n) [] h = refl
get_elem?-remove_at_lt zero (suc n) (x ∷ es) h = refl
get_elem?-remove_at_lt (suc i) (suc n) (x ∷ es) h = get_elem?-remove_at_lt i n es (omega arith)

abbrev mask_of : Option Exception → Bytes
mask_of none = []
mask_of (some e) = e.mask

-- A move up is announced with the mask of the exception that stood behind the moved one.
pub move-reported_up :
    (n1 n2 : ℕ) (es : List Exception) (m : Moved)
    → n1 < n2
    → n2 < length es
    → move (pos n1) (pos n2) es ≡ some m
    → m.reported ≡ mask_at (suc n1) es
move-reported_up n1 n2 es m up k run =
    let h : n1 < length es = omega arith in
    let d : n1 ≢ n2 = omega arith in
    let (e, at) = get_elem?-some n1 es h in
    let room : n2 ≤ length (remove_at es n1) = omega (arith, length-remove_at es n1 h) in
    let same : moved n1 (shift n1 n2 e es) ≡ m = cc (move-runs n1 n2 es e h k d at) in
    sym (ap (λ (x : Moved). x.reported) same)
    ∙ ap mask_of (
        ap (λ l. get_elem? l n1) (shift-insert_at n1 n2 e es h k)
        ∙ get_elem?-insert_at_lt n1 n2 e (remove_at es n1) up room
        ∙ get_elem?-remove_at_ge n1 n1 es (omega arith))

-- A move down is announced with the mask of the exception that stood before the moved one.
pub move-reported_down :
    (n1 n2 : ℕ) (es : List Exception) (m : Moved)
    → n2 ≤ n1
    → suc n1 < length es
    → move (pos (suc n1)) (pos n2) es ≡ some m
    → m.reported ≡ mask_at n1 es
move-reported_down n1 n2 es m down h run =
    let k : n2 < length es = omega arith in
    let d : suc n1 ≢ n2 = omega arith in
    let (e, at) = get_elem?-some (suc n1) es h in
    let room : n2 ≤ length (remove_at es (suc n1)) =
      omega (arith, length-remove_at es (suc n1) h) in
    let same : moved (suc n1) (shift (suc n1) n2 e es) ≡ m =
      cc (move-runs (suc n1) n2 es e h k d at) in
    sym (ap (λ (x : Moved). x.reported) same)
    ∙ ap mask_of (
        ap (λ l. get_elem? l (suc n1)) (shift-insert_at (suc n1) n2 e es h k)
        ∙ get_elem?-insert_at_gt n1 n2 e (remove_at es (suc n1)) down room
        ∙ get_elem?-remove_at_lt n1 (suc n1) es (omega arith))
