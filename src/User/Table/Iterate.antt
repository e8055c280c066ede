-- ===== src/User/Table/Iterate.antt =====
-- users.c `firstuser` and `nextuser`, and the loop over all users that they are for. A pointer to a user
-- is the list from him on, so that NULL is the empty list.
use k9_chatnet.Common.{
  ℕ, zero, suc, ◌+◌, ◌-◌, ◌≤◌, ◌<◌, ◌≡◌, refl, sym, ap, ◌∙◌, inl, inr, true, false, List, [], ◌∷◌,
  ◌++◌, arith, length, ltb, if◌then◌else◌, Bool-cases,
}

-- The static variables of both functions.
pub record Iteration : Type 0 where
  pub current : List ℕ
  pub next_index : ℕ

-- The loop of both functions, at most `fuel` times.
unfoldable pub next_list : (ℕ → List ℕ) → ℕ → List ℕ → ℕ → Iteration
next_list lists zero current i = record { current = current; next_index = i }
next_list lists (suc fuel) (u ∷ l) i = record { current = u ∷ l; next_index = i }
next_list lists (suc fuel) [] i =
    let later = next_list lists fuel (lists i) (i + 1) in
    if ltb i 1024 then later else record { current = []; next_index = i }

unfoldable pub firstuser : (ℕ → List ℕ) → Iteration → Iteration
firstuser lists it = next_list lists 1025 it.current 0

abbrev pub after_current : List ℕ → List ℕ
after_current [] = []
after_current (u ∷ l) = l

unfoldable pub nextuser : (ℕ → List ℕ) → Iteration → Iteration
nextuser lists it = next_list lists 1025 (after_current it.current) it.next_index

abbrev pub visit : List ℕ → List ℕ → List ℕ
visit [] later = []
visit (u ∷ l) later = u ∷ later

-- `for (u = firstuser(); u; u = nextuser())`: the users that the loop visits, at most `fuel` of them.
unfoldable pub visited : (ℕ → List ℕ) → ℕ → Iteration → List ℕ
visited lists zero it = []
visited lists (suc fuel) it =
    let later = visited lists fuel (nextuser lists it) in visit it.current later

-- The users of `n` lists from one on.
pub users_from : (ℕ → List ℕ) → ℕ → ℕ → List ℕ
users_from lists i zero = []
users_from lists i (suc n) = lists i ++ users_from lists (i + 1) n

-- What a loop still has before it.
abbrev pub ahead : (ℕ → List ℕ) → Iteration → List ℕ
ahead lists it = it.current ++ users_from lists it.next_index (1024 - it.next_index)

-- The loop of `firstuser` stops at a user, or with nothing before it.
abbrev IsStopped : (ℕ → List ℕ) → List ℕ → Iteration → Type 0
IsStopped lists left it = (ahead lists it ≡ left) × ((it.current ≡ []) → (left ≡ []))

users_from_end :
    (lists : ℕ → List ℕ) (i : ℕ) → ltb i 1024 ≡ false → users_from lists i (1024 - i) ≡ []
unfolding users_from
users_from_end lists i h = let none : 1024 - i ≡ 0 = ground arith in rw none refl

users_from_step :
    (lists : ℕ → List ℕ) (i : ℕ)
    → ltb i 1024 ≡ true
    → users_from lists i (1024 - i) ≡ lists i ++ users_from lists (i + 1) (1024 - (i + 1))
unfolding users_from
users_from_step lists i h =
    let more : 1024 - i ≡ suc (1024 - (i + 1)) = ground arith in ap (users_from lists i) more

next_list-IsStopped :
    (lists : ℕ → List ℕ) (fuel : ℕ) (current : List ℕ) (i : ℕ)
    → 1024 - i < fuel
    → IsStopped lists (current ++ users_from lists i (1024 - i)) (next_list lists fuel current i)
unfolding next_list
next_list-IsStopped lists zero current i h = absurd (omega (arith, h))
next_list-IsStopped lists (suc fuel) (u ∷ l) i h = (refl, λ e. absurd cc)
next_list-IsStopped lists (suc fuel) [] i h = elim (Bool-cases (ltb i 1024)) [
  | inl more ↦
      let (same, stop) = next_list-IsStopped lists fuel (lists i) (i + 1) (ground arith) in
      rw more
        (same ∙ sym (users_from_step lists i more), λ e. users_from_step lists i more ∙ stop e)
  | inr done ↦ rw done (refl, λ e. users_from_end lists i done)
]

nextuser-IsStopped :
    (lists : ℕ → List ℕ) (u : ℕ) (l : List ℕ) (i : ℕ)
    → IsStopped lists
        (l ++ users_from lists i (1024 - i))
        (nextuser lists (record { current = u ∷ l; next_index = i }))
unfolding nextuser
nextuser-IsStopped lists u l i = next_list-IsStopped lists 1025 l i (omega arith)

length_zero : (l : List ℕ) → length l ≤ 0 → l ≡ []
length_zero [] h = refl
length_zero (u ∷ l) h = absurd (omega (arith, h))

-- A user is visited, and then those that are left behind him.
visit_left :
    (lists : ℕ → List ℕ) (fuel : ℕ) (current : List ℕ) (i : ℕ) (left : List ℕ)
    → IsStopped lists left (record { current = current; next_index = i })
    → length left ≤ suc fuel
    → ((rest : List ℕ)
        → IsStopped lists rest (nextuser lists (record { current = current; next_index = i }))
        → length rest ≤ fuel
        → visited lists fuel (nextuser lists (record { current = current; next_index = i })) ≡ rest)
    → visit current
        (visited lists fuel (nextuser lists (record { current = current; next_index = i })))
      ≡ left
visit_left lists fuel [] i left (same, stop) h ih = sym (stop refl)
visit_left lists fuel (u ∷ l) i left (same, stop) h ih =
    ap (◌∷◌ u) (
      ih (l ++ users_from lists i (1024 - i)) (nextuser-IsStopped lists u l i)
        (omega (arith, h, ap length same)))
    ∙ same

visited_left :
    (lists : ℕ → List ℕ) (fuel : ℕ) (it : Iteration) (left : List ℕ)
    → IsStopped lists left it
    → length left ≤ fuel
    → visited lists fuel it ≡ left
unfolding visited
visited_left lists zero it left s h = sym (length_zero left h)
visited_left lists (suc fuel) it left (same, stop) h =
    visit_left lists fuel it.current it.next_index left (same, stop) h
      (visited_left lists fuel (nextuser lists it))

-- The loop over all users ends, and visits every user of every list once, from the first list to the last.
-- When an earlier loop was left before its end, the users from the one where it stood to the end of his
-- list come before them.
pub visited-users_from :
    (lists : ℕ → List ℕ) (fuel : ℕ) (it : Iteration)
    → length (it.current ++ users_from lists 0 1024) ≤ fuel
    → visited lists fuel (firstuser lists it) ≡ it.current ++ users_from lists 0 1024
unfolding firstuser
visited-users_from lists fuel it h =
    visited_left lists fuel (next_list lists 1025 it.current 0)
      (it.current ++ users_from lists 0 1024)
      (next_list-IsStopped lists 1025 it.current 0 (omega arith)) h
