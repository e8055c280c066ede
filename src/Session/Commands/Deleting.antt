-- ===== src/Session/Commands/Deleting.antt =====
-- sessions.c: `exception_del_callback` on a list of exceptions whose numbers rise.
use k9_chatnet.Common.{
  ℕ, zero, suc, ◌+◌, ◌-◌, ◌≤◌, ◌<◌, ◌≡◌, refl, sym, ◌∙◌, ap, ap₂, ◌⊎◌, inl, inr, Bool, true, false,
  List, [], ◌∷◌, Option, none, some, length, leb, ◌==◌, if◌then◌else◌, arith, Bool-cases,
}
use k9_chatnet.Common.Int.{ℤ, pos, ltb_ℤ}
use k9_chatnet.Session.Types.{Exception}
use k9_chatnet.Session.Exceptions.{remove_at, exception_del}
use k9_chatnet.Session.Commands.Moving.{Numbered, length-remove_at}
use k9_chatnet.Session.Commands.{
  as_int, index_of_num, Deletion, delete_found, find_position, exception_del_callback,
}

-- The entries whose number is not `n`.
unfoldable pub without : ℕ → List Exception → List Exception
without n [] = []
without n (e ∷ es) = if n == e.num then without n es else e ∷ without n es

-- The numbers rise along the list, from `i` on.
abbrev pub Rising : ℕ → List Exception → Type 0
Rising i [] = Unit
Rising i (e ∷ es) = (i ≤ e.num) × Rising (suc e.num) es

Rising-mono : (i j : ℕ) (es : List Exception) → i ≤ j → Rising j es → Rising i es
Rising-mono i j [] h r = tt
Rising-mono i j (e ∷ es) h r = (omega arith, r.1)

pub Numbered-Rising : (i : ℕ) (es : List Exception) → Numbered i es → Rising i es
Numbered-Rising i [] h = tt
Numbered-Rising i (e ∷ es) h = (
  omega (arith, h.0),
  Rising-mono (suc e.num) (suc i) es (omega (arith, h.0)) (Numbered-Rising (suc i) es h.1),
)

pub without-Rising : (n i : ℕ) (es : List Exception) → Rising i es → Rising i (without n es)
unfolding without
without-Rising n i [] r = tt
without-Rising n i (e ∷ es) r =
    ground (arith, without-Rising n (suc e.num) es r.1, Rising-mono i (suc e.num) (without n es))

without_below : (n i : ℕ) (es : List Exception) → n < i → Rising i es → without n es ≡ es
unfolding without
without_below n i [] h r = refl
without_below n i (e ∷ es) h r = ground (arith, without_below n (suc e.num) es)

-- Deleting at the index that is found is leaving out the number.
found_index :
    (n k i : ℕ) (es : List Exception)
    → Rising k es
    → (index_of_num n i es ≡ none) × (without n es ≡ es)
      ⊎ (j : ℕ) × (index_of_num n i es ≡ some (i + j))
        × (j < length es)
        × (remove_at es j ≡ without n es)
unfolding index_of_num without remove_at
found_index n k i [] r = inl (refl, refl)
found_index n k i (e ∷ es) r = elim (Bool-cases (n == e.num)) [
  | inl hit ↦ rw hit (
      inr (
        0,
        ap some (omega arith),
        omega arith,
        sym (without_below n (suc e.num) es (ground arith) r.1),
      ))
  | inr miss ↦ rw miss (elim (found_index n (suc e.num) (suc i) es r.1) [
    | inl (none_found, same) ↦ inl (none_found, ap (◌∷◌ e) same)
    | inr (j, found, inside, removed) ↦
        inr (suc j, found ∙ ap some (omega arith), omega arith, ap (◌∷◌ e) removed)
  ])
]

-- A position counts from 1; there is no position 0.
abbrev pub without_position : ℕ → List Exception → List Exception
without_position zero es = es
without_position (suc n) es = without n es

pub length-without_le : (n : ℕ) (es : List Exception) → length (without n es) ≤ length es
unfolding without
length-without_le n [] = omega arith
length-without_le n (e ∷ es) = ground (arith, length-without_le n es)

-- The number of entries that a deletion takes away, as the callback returns it.
abbrev pub fewer : List Exception → List Exception → ℤ
fewer es es' = pos (length es - length es')

delete_found-without :
    (n : ℕ) (es : List Exception)
    → Rising 0 es
    → delete_found es (index_of_num n 0 es) ≡ (without n es, fewer es (without n es))
unfolding exception_del
delete_found-without n es r = elim (found_index n 0 0 es r) [
  | inl (none_found, same) ↦ rw (none_found, same) (ap (λ k. (es, pos k)) (omega arith))
  | inr (j, found, inside, removed) ↦
      let j' : index_of_num n 0 es ≡ some j = found ∙ ap some (omega arith) in
      let less : leb (length es) j ≡ false = ground arith in
      let one : 1 ≡ length es - length (without n es) =
        omega (arith, length-remove_at es j inside, ap length removed) in
      rw (j', less) (ap₂ (λ l k. (l, pos k)) removed one)
]

pub callback-without :
    (d : Deletion) (num : ℕ)
    → Rising 0 d.exceptions
    → exception_del_callback d num ≡ (
      record { exceptions = without_position num d.exceptions; last = some num },
      fewer d.exceptions (without_position num d.exceptions),
    )
unfolding exception_del_callback
callback-without d zero r =
    ap (λ k. (record { exceptions = d.exceptions; last = some 0 }, pos k)) (omega arith)
callback-without d (suc n) r =
    ap (λ (x : List Exception × ℤ). (record { exceptions = x.0; last = some (suc n) }, x.1))
      (delete_found-without n d.exceptions r)

as_int_nonneg : (r : List Exception × Bool) → ltb_ℤ (as_int r).1 (pos 0) ≡ false
as_int_nonneg (es, true) = refl
as_int_nonneg (es, false) = refl

delete_found_nonneg :
    (es : List Exception) (o : Option ℕ) → ltb_ℤ (delete_found es o).1 (pos 0) ≡ false
delete_found_nonneg es none = refl
delete_found_nonneg es (some i) = as_int_nonneg (exception_del i es)

pub callback_nonneg :
    (d : Deletion) (num : ℕ) → ltb_ℤ (exception_del_callback d num).1 (pos 0) ≡ false
unfolding exception_del_callback
callback_nonneg d num = delete_found_nonneg d.exceptions (find_position num d.exceptions)
