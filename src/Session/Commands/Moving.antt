-- ===== src/Session/Commands/Moving.antt =====
-- sessions.c: MOVE, and the numbers of the exceptions.
use k9_chatnet.Common.{
  ℕ, zero, suc, ◌+◌, ◌-◌, ◌≤◌, ◌<◌, ◌≡◌, refl, sym, ◌∙◌, ap, ◌≢◌, true, false, List, [], ◌∷◌, ◌++◌,
  some, take, drop, length, get_elem?, ltb, lt→ltb, ◌==◌, arith, map,
}
use mathlib.Core.Option
use k9_chatnet.Session.Types.{Exception}
use k9_chatnet.Session.Exceptions.{remove_at}
use k9_chatnet.Common.Int.{pos}
use k9_chatnet.Session.Commands.{renumber, shift, Moved, moved, move_within, move}

-- The numbers count up from `i`.
abbrev pub Numbered : ℕ → List Exception → Type 0
Numbered i [] = Unit
Numbered i (e ∷ es) = (e.num ≡ i) × Numbered (suc i) es

pub renumber-Numbered : (i : ℕ) (es : List Exception) → Numbered i (renumber i es)
unfolding renumber
renumber-Numbered i [] = tt
renumber-Numbered i (e ∷ es) = (refl, renumber-Numbered (suc i) es)

-- An exception without its number.
abbrev pub unnumbered : Exception → Exception
unnumbered e = record e { num = 0 }

pub map-renumber :
    (i : ℕ) (es : List Exception) → map unnumbered (renumber i es) ≡ map unnumbered es
unfolding renumber
map-renumber i [] = refl
map-renumber i (e ∷ es) = ap (◌∷◌ (unnumbered e)) (map-renumber (suc i) es)

unfoldable pub insert_at : ℕ → Exception → List Exception → List Exception
insert_at n e es = take n es ++ e ∷ drop n es

-- The two copies of MOVE take the entry out and put it in at its new index.
shift-suc :
    (a b : ℕ) (e x : Exception) (es : List Exception)
    → shift (suc a) (suc b) e (x ∷ es) ≡ x ∷ shift a b e es
unfolding shift
shift-suc a b e x es =
    let up : suc b - suc a ≡ b - a = omega arith in
    let down : suc a - suc b ≡ a - b = omega arith in rw (up, down) (ground arith)

pub shift-insert_at :
    (n1 n2 : ℕ) (e : Exception) (es : List Exception)
    → n1 < length es
    → n2 < length es
    → shift n1 n2 e es ≡ insert_at n2 e (remove_at es n1)
unfolding shift insert_at remove_at
shift-insert_at n1 n2 e [] h k = elim h [ ]
shift-insert_at zero zero e (x ∷ es) h k = refl
shift-insert_at zero (suc b) e (x ∷ es) h k =
    let up : ltb 0 (suc b) ≡ true = ground arith in
    let all : suc b - 0 ≡ suc b = omega arith in rw (up, all)
shift-insert_at (suc a) zero e (x ∷ es) h k =
    let down : ltb (suc a) 0 ≡ false = ground arith in
    let all : suc a - 0 ≡ suc a = omega arith in rw (down, all)
shift-insert_at (suc a) (suc b) e (x ∷ es) h k =
    shift-suc a b e x es ∙ ap (◌∷◌ x) (shift-insert_at a b e es (omega arith) (omega arith))

get_elem?-insert_at :
    (n : ℕ) (e : Exception) (es : List Exception)
    → n ≤ length es
    → get_elem? (insert_at n e es) n ≡ some e
unfolding insert_at
get_elem?-insert_at zero e es h = refl
get_elem?-insert_at (suc n) e [] h = elim h [ ]
get_elem?-insert_at (suc n) e (x ∷ es) h = get_elem?-insert_at n e es (omega arith)

remove_at-insert_at :
    (n : ℕ) (e : Exception) (es : List Exception)
    → n ≤ length es
    → remove_at (insert_at n e es) n ≡ es
unfolding insert_at remove_at
remove_at-insert_at zero e es h = refl
remove_at-insert_at (suc n) e [] h = elim h [ ]
remove_at-insert_at (suc n) e (x ∷ es) h = ap (◌∷◌ x) (remove_at-insert_at n e es (omega arith))

pub length-remove_at :
    (es : List Exception) (i : ℕ) → i < length es → length (remove_at es i) + 1 ≡ length es
unfolding remove_at
length-remove_at [] i h = elim h [ ]
length-remove_at (x ∷ es) zero h = omega arith
length-remove_at (x ∷ es) (suc i) h = omega (arith, length-remove_at es i (omega arith))

-- The exception of index `n1`, without its number, stands at index `n2`; the others, without theirs,
-- are as they were, in the same order.
abbrev pub IsMoved : ℕ → ℕ → List Exception → List Exception → Type 0
IsMoved n1 n2 es es' =
    (Option.map unnumbered (get_elem? es' n2) ≡ Option.map unnumbered (get_elem? es n1))
    × (map unnumbered (remove_at es' n2) ≡ map unnumbered (remove_at es n1))

get_elem?-renumber :
    (i n : ℕ) (es : List Exception)
    → Option.map unnumbered (get_elem? (renumber i es) n) ≡ Option.map unnumbered (get_elem? es n)
unfolding renumber
get_elem?-renumber i n [] = refl
get_elem?-renumber i zero (e ∷ es) = refl
get_elem?-renumber i (suc n) (e ∷ es) = get_elem?-renumber (suc i) n es

remove_at-renumber :
    (i n : ℕ) (es : List Exception)
    → map unnumbered (remove_at (renumber i es) n) ≡ map unnumbered (remove_at es n)
unfolding renumber remove_at
remove_at-renumber i n [] = refl
remove_at-renumber i zero (e ∷ es) = map-renumber (suc i) es
remove_at-renumber i (suc n) (e ∷ es) = ap (◌∷◌ (unnumbered e)) (remove_at-renumber (suc i) n es)

pub get_elem?-some :
    (n : ℕ) (es : List Exception) → n < length es → (e : Exception) × (get_elem? es n ≡ some e)
get_elem?-some n [] h = elim h [ ]
get_elem?-some zero (e ∷ es) h = (e, refl)
get_elem?-some (suc n) (e ∷ es) h = get_elem?-some n es (omega arith)

pub move-runs :
    (n1 n2 : ℕ) (es : List Exception) (e : Exception)
    → n1 < length es
    → n2 < length es
    → n1 ≢ n2
    → get_elem? es n1 ≡ some e
    → move (pos n1) (pos n2) es ≡ some (moved n1 (shift n1 n2 e es))
unfolding move move_within
move-runs n1 n2 es e h k d at =
    let differ : (n1 == n2) ≡ false = ground arith in
    rw (lt→ltb n1 (length es) h, lt→ltb n2 (length es) k, differ, at)

-- MOVE with two different positions of the list moves the exception to the new position, leaves the
-- others in their order, and numbers the list from 0.
pub move-IsMoved :
    (n1 n2 : ℕ) (es : List Exception)
    → n1 < length es
    → n2 < length es
    → n1 ≢ n2
    → (m : Moved) × (move (pos n1) (pos n2) es ≡ some m)
      × IsMoved n1 n2 es m.exceptions
      × Numbered 0 m.exceptions
move-IsMoved n1 n2 es h k d =
    let (e, at) = get_elem?-some n1 es h in
    let es' = shift n1 n2 e es in
    let inserted = shift-insert_at n1 n2 e es h k in
    let room : n2 ≤ length (remove_at es n1) = omega (arith, length-remove_at es n1 h) in
    (
      moved n1 es',
      move-runs n1 n2 es e h k d at,
      (
        get_elem?-renumber 0 n2 es'
            ∙ ap (λ l. Option.map unnumbered (get_elem? l n2)) inserted
            ∙ ap (Option.map unnumbered) (get_elem?-insert_at n2 e (remove_at es n1) room ∙ sym at),
        remove_at-renumber 0 n2 es'
            ∙ ap (λ l. map unnumbered (remove_at l n2)) inserted
            ∙ ap (map unnumbered) (remove_at-insert_at n2 e (remove_at es n1) room),
      ),
      renumber-Numbered 0 es',
    )
