-- ===== src/MemoServ/Deleting.antt =====
-- memoserv.c `do_del`: the memos of a list of numbers, and what the user is told of them.
use k9_chatnet.Common.{
  ℕ, ◌+◌, ◌-◌, ◌≤◌, ◌≡◌, refl, inl, inr, true, false, List, [], ◌∷◌, ◌++◌, Option, none, some,
  Bool-cases,
}
use k9_chatnet.Text.Number.{Progress}
use k9_chatnet.Text.Number.Lists.{up_from}
use k9_chatnet.MemoServ.{Memo, Deletion, follows, noted, told}

-- The numbers of ranges; one that begins with -1 has none.
pub expand : List (Option ℕ × ℕ) → List ℕ
expand [] = []
expand ((none, b) ∷ rs) = expand rs
expand ((some a, b) ∷ rs) = up_from a (b + 1 - a) ++ expand rs

-- The last range reaches to the last number.
abbrev IsOpen : Option ℕ → Option ℕ → Type 0
IsOpen none last0 = Unit
IsOpen (some last) none = true ≡ false
IsOpen (some last) (some last0) = last0 ≤ last

-- A call of the callback.
abbrev Tells : Progress Deletion → List ℕ → Type 0
Tells p l = IsOpen p.state.last p.state.last0 × (expand (told p).1 ≡ l)

pub noted-memos : (n : ℕ) (r : List Memo) (d : Deletion) → (noted n r d).memos ≡ r
noted-memos n r d = elim (Bool-cases (follows n d.last)) [
  | inl next ↦ rw next refl
  | inr new ↦ rw new refl
]
