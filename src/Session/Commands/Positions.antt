-- ===== src/Session/Commands/Positions.antt =====
-- sessions.c: DEL with a list of positions deletes what stood at those positions.
use k9_chatnet.Common.{
  ℕ, zero, suc, ◌+◌, ◌-◌, ◌≤◌, ◌<◌, ◌≡◌, refl, sym, ◌∙◌, ap, subst, ap₂, Bool, true, false, List,
  [], ◌∷◌, none, some, length, ◌==◌, if◌then◌else◌, arith, All,
}
use k9_chatnet.Common.Int.{ℤ, pos, ◌+ℤ◌}
use k9_chatnet.Text.Number.{Progress}
use k9_chatnet.Text.Number.Lists.{
  Item, IsItem, list_text, all_numbers, visit, visit_all, visit_all-count,
  process_numlist-list_text,
}
use k9_chatnet.Session.Types.{Exception}
use k9_chatnet.Session.Commands.Moving.{Numbered}
use k9_chatnet.Session.Commands.{renumber, Deletion, exception_del_callback, delete_positions}
use k9_chatnet.Session.Commands.Deleting.{
  without, Rising, Numbered-Rising, without-Rising, without_position, length-without_le,
  callback-without, callback_nonneg,
}

abbrev without_all : List ℕ → List Exception → List Exception
without_all [] es = es
without_all (n ∷ l) es = without_all l (without_position n es)

without_position-Rising :
    (n : ℕ) (es : List Exception) → Rising 0 es → Rising 0 (without_position n es)
without_position-Rising zero es r = r
without_position-Rising (suc n) es r = without-Rising n 0 es r

length-without_position_le :
    (n : ℕ) (es : List Exception) → length (without_position n es) ≤ length es
length-without_position_le zero es = omega arith
length-without_position_le (suc n) es = length-without_le n es

length-without_all_le : (l : List ℕ) (es : List Exception) → length (without_all l es) ≤ length es
length-without_all_le [] es = omega arith
length-without_all_le (n ∷ l) es =
    omega (arith, length-without_all_le l (without_position n es), length-without_position_le n es)

+ℤ-pos : (a b : ℕ) → pos a +ℤ pos b ≡ pos (a + b)
unfolding ◌+ℤ◌
+ℤ-pos a b = ground arith

-- What the calls for a list of positions leave, and what they return in sum.
abbrev Deleted : List ℕ → Progress Deletion → Progress Deletion → ℕ → Type 0
Deleted l p q r =
    (q.state.exceptions ≡ without_all l p.state.exceptions)
    × (q.retval ≡ pos (r + (length p.state.exceptions - length (without_all l p.state.exceptions))))

visit_all-Deleted :
    (l : List ℕ) (p : Progress Deletion) (r : ℕ)
    → Rising 0 p.state.exceptions
    → p.retval ≡ pos r
    → Deleted l p (visit_all exception_del_callback p l) r
visit_all-Deleted [] p r h e = (refl, e ∙ ap pos (omega arith))
visit_all-Deleted (n ∷ l) p r h e =
    let es = p.state.exceptions in
    let es' = without_position n es in
    let step = callback-without p.state n h in
    let kept_es : (visit exception_del_callback p n).state.exceptions ≡ es' =
      ap (λ (x : Deletion × ℤ). x.0.exceptions) step in
    let sum : (visit exception_del_callback p n).retval ≡ pos (r + (length es - length es')) =
      ap₂ ◌+ℤ◌ e (ap (λ (x : Deletion × ℤ). x.1) step) ∙ +ℤ-pos r (length es - length es') in
    let (rest, total) =
      visit_all-Deleted l (visit exception_del_callback p n) (r + (length es - length es'))
        (subst (Rising 0) (sym kept_es) (without_position-Rising n es h)) sum in
    (
      rest ∙ ap (without_all l) kept_es,
      total
          ∙ ap (λ x. pos (r + (length es - length es') + (length x - length (without_all l x))))
              kept_es
          ∙ ap pos (omega (arith, length-without_position_le n es, length-without_all_le l es')),
    )

listed : ℕ → List ℕ → Bool
listed n [] = false
listed n (m ∷ l) = if n == m then true else listed n l

-- The entries whose position, one more than their number, is not in the list.
pub kept : List ℕ → List Exception → List Exception
kept l [] = []
kept l (e ∷ es) = if listed (suc e.num) l then kept l es else e ∷ kept l es

kept-nil : (es : List Exception) → kept [] es ≡ es
unfolding kept listed
kept-nil [] = refl
kept-nil (e ∷ es) = ap (◌∷◌ e) (kept-nil es)

kept-without_position :
    (n : ℕ) (l : List ℕ) (es : List Exception) → kept l (without_position n es) ≡ kept (n ∷ l) es
unfolding kept listed without
kept-without_position zero l [] = refl
kept-without_position (suc n) l [] = refl
kept-without_position zero l (e ∷ es) = ground (arith, kept-without_position zero l es)
kept-without_position (suc n) l (e ∷ es) = ground (arith, kept-without_position (suc n) l es)

without_all-kept : (l : List ℕ) (es : List Exception) → without_all l es ≡ kept l es
without_all-kept [] es = sym (kept-nil es)
without_all-kept (n ∷ l) es =
    without_all-kept l (without_position n es) ∙ kept-without_position n l es

-- When every exception has its index for its number, DEL with a list of numbers and ranges, all below 2 ^ 31 and
-- together of fewer than 32767 numbers, deletes exactly the exceptions at those positions, whatever their order and
-- repetitions, numbers the others anew, and returns how many it deleted.
pub delete_positions-kept :
    (es : List Exception) (i : Item) (is : List Item)
    → Numbered 0 es
    → All IsItem (i ∷ is)
    → length (all_numbers i is) < 32767
    → let rest = kept (all_numbers i is) es in
      delete_positions (list_text i is) es
      ≡ some (renumber 0 rest, pos (length es - length rest), length (all_numbers i is))
unfolding delete_positions
delete_positions-kept es i is h v b =
    let l = all_numbers i is in
    let d : Deletion = record { exceptions = es; last = none } in
    let p : Progress Deletion = record { state = d; count = 0; retval = pos 0 } in
    let (rest, total) = visit_all-Deleted l p 0 (Numbered-Rising 0 es h) refl in
    let left : (visit_all exception_del_callback p l).state.exceptions ≡ kept l es =
      rest ∙ without_all-kept l es in
    let sum : (visit_all exception_del_callback p l).retval ≡ pos (length es - length (kept l es)) =
      total
      ∙ ap (λ x. pos (0 + (length es - length x))) (without_all-kept l es)
      ∙ ap pos (omega arith) in
    let calls : (visit_all exception_del_callback p l).count ≡ length l =
      visit_all-count exception_del_callback p l ∙ omega arith in
    rw
      (
        process_numlist-list_text exception_del_callback callback_nonneg d i is v b,
        delete_positions,
      )
      (λ k. some (renumber 0 (left k), sum k, calls k))
