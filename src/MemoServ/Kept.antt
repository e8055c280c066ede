-- ===== src/MemoServ/Kept.antt =====
-- memoserv.c `delmemo`: the memos that stay when those of a list of numbers are deleted.
use k9_chatnet.Common.{
  ℕ, ◌≡◌, refl, sym, ap, subst, ◌∙◌, inl, inr, Bool, true, false, List, [], ◌∷◌, ◌==◌, ==_iff,
  if◌then◌else◌, Bool-cases, All,
}
use k9_chatnet.MemoServ.{Memo, delmemo}

-- No two memos have one number.
abbrev pub Distinct : List Memo → Type 0
Distinct [] = Unit
Distinct (m ∷ ms) = All (λ (n : Memo). (n.number == m.number) ≡ false) ms × Distinct ms

listed : ℕ → List ℕ → Bool
listed n [] = false
listed n (m ∷ l) = if n == m then true else listed n l

-- The memos have different numbers, and none has 0.
abbrev pub IsNumbered : List Memo → Type 0
IsNumbered ms = All (λ (m : Memo). (m.number == 0) ≡ false) ms × Distinct ms

-- The memos whose numbers are not in the list.
pub kept : List ℕ → List Memo → List Memo
kept l [] = []
kept l (m ∷ ms) = if listed m.number l then kept l ms else m ∷ kept l ms

-- The numbers of the list that are found, each at its first place in the list.
unfoldable pub found : List ℕ → List Memo → List ℕ
found [] ms = []
found (n ∷ l) ms = let (rest, hit) = delmemo n ms in if hit then n ∷ found l rest else found l rest

pub kept-nil : (ms : List Memo) → kept [] ms ≡ ms
unfolding kept listed
kept-nil [] = refl
kept-nil (m ∷ ms) = ap (◌∷◌ m) (kept-nil ms)

pub All-delmemo : (P : Memo → Type 0) (n : ℕ) (ms : List Memo) → All P ms → All P (delmemo n ms).0
unfolding delmemo
All-delmemo P n [] h = h
All-delmemo P n (m ∷ ms) (h, hs) = elim (Bool-cases (m.number == n)) [
  | inl hit ↦ rw hit hs
  | inr miss ↦ rw miss (h, All-delmemo P n ms hs)
]

pub delmemo-Distinct : (n : ℕ) (ms : List Memo) → Distinct ms → Distinct (delmemo n ms).0
unfolding delmemo
delmemo-Distinct n [] h = h
delmemo-Distinct n (m ∷ ms) (h, hs) = elim (Bool-cases (m.number == n)) [
  | inl hit ↦ rw hit hs
  | inr miss ↦
      rw miss (All-delmemo (λ k. (k.number == m.number) ≡ false) n ms h, delmemo-Distinct n ms hs)
]

-- A number that no memo has changes nothing.
kept-other :
    (n : ℕ) (l : List ℕ) (ms : List Memo)
    → All (λ (m : Memo). (m.number == n) ≡ false) ms
    → kept (n ∷ l) ms ≡ kept l ms
unfolding kept listed
kept-other n l [] h = refl
kept-other n l (m ∷ ms) (h, hs) = rw (h, kept-other n l ms hs) refl

pub kept-delmemo :
    (n : ℕ) (l : List ℕ) (ms : List Memo) → Distinct ms → kept l (delmemo n ms).0 ≡ kept (n ∷ l) ms
unfolding delmemo kept listed
kept-delmemo n l [] h = refl
kept-delmemo n l (m ∷ ms) (h, hs) = elim (Bool-cases (m.number == n)) [
  | inl hit ↦ rw hit (
      sym (
        kept-other n l ms (
          subst (λ k. All (λ (x : Memo). (x.number == k) ≡ false) ms) ((==_iff m.number n).0 hit)
            h)))
  | inr miss ↦
      rw miss
        (ap (λ (r : List Memo). if listed m.number l then r else m ∷ r) (kept-delmemo n l ms hs))
]

-- A number that is found is not 0.
pub delmemo_found :
    (n : ℕ) (ms : List Memo)
    → All (λ (m : Memo). (m.number == 0) ≡ false) ms
    → (delmemo n ms).1 ≡ true
    → (n == 0) ≡ false
unfolding delmemo
delmemo_found n [] h e = cc
delmemo_found n (m ∷ ms) (h, hs) e = elim (Bool-cases (m.number == n)) [
  | inl hit ↦ subst (λ k. (k == 0) ≡ false) ((==_iff m.number n).0 hit) h
  | inr miss ↦ delmemo_found n ms hs (sym (rw (miss, delmemo) refl) ∙ e)
]

pub delmemo-missing : (n : ℕ) (ms : List Memo) → (delmemo n ms).1 ≡ false → (delmemo n ms).0 ≡ ms
unfolding delmemo
delmemo-missing n [] h = refl
delmemo-missing n (m ∷ ms) h = elim (Bool-cases (m.number == n)) [
  | inl hit ↦ let wrong : true ≡ false = sym (rw hit refl) ∙ h in cc
  | inr miss ↦ rw miss (ap (◌∷◌ m) (delmemo-missing n ms (sym (rw (miss, delmemo) refl) ∙ h)))
]
