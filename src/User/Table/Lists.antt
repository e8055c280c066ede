-- ===== src/User/Table/Lists.antt =====
-- users.c: lists of different users, and what an unlinked user leaves.
use k9_chatnet.Common.{
  ℕ, zero, suc, ◌+◌, ◌≡◌, refl, sym, ap, subst, ◌∙◌, inl, inr, Bool, true, false, List, [], ◌∷◌,
  Bytes, IsText, arith, length, take, ◌==◌, ==_iff, if◌then◌else◌, Bool-cases, All,
}
use k9_chatnet.User.Table.{put, hash, unlinked, strscpy}
use k9_chatnet.User.Table.Hashed.{hashed_to}

-- No entry is the user.
abbrev pub Without : ℕ → List ℕ → Type 0
Without user l = All (λ v. (v == user) ≡ false) l

abbrev pub Distinct : List ℕ → Type 0
Distinct [] = Unit
Distinct (v ∷ l) = Without v l × Distinct l

unfoldable pub is_listed : ℕ → List ℕ → Bool
is_listed user [] = false
is_listed user (v ∷ l) = if v == user then true else is_listed user l

pub unlinked-Without : (user : ℕ) (l : List ℕ) → Without user (unlinked user l)
unfolding unlinked
unlinked-Without user [] = tt
unlinked-Without user (v ∷ l) = elim (Bool-cases (v == user)) [
  | inl hit ↦ rw hit (unlinked-Without user l)
  | inr miss ↦ rw miss (miss, unlinked-Without user l)
]

pub unlinked-All : (P : ℕ → Type 0) (user : ℕ) (l : List ℕ) → All P l → All P (unlinked user l)
unfolding unlinked
unlinked-All P user [] h = tt
unlinked-All P user (v ∷ l) (p, h) = elim (Bool-cases (v == user)) [
  | inl hit ↦ rw hit (unlinked-All P user l h)
  | inr miss ↦ rw miss (p, unlinked-All P user l h)
]

pub unlinked-Distinct : (user : ℕ) (l : List ℕ) → Distinct l → Distinct (unlinked user l)
unfolding unlinked
unlinked-Distinct user [] h = tt
unlinked-Distinct user (v ∷ l) (p, h) = elim (Bool-cases (v == user)) [
  | inl hit ↦ rw hit (unlinked-Distinct user l h)
  | inr miss ↦ rw miss (unlinked-All (λ w. (w == v) ≡ false) user l p, unlinked-Distinct user l h)
]

unlinked_same : (user : ℕ) (l : List ℕ) → Without user l → unlinked user l ≡ l
unfolding unlinked
unlinked_same user [] h = refl
unlinked_same user (v ∷ l) (p, h) = rw p (ap (◌∷◌ v) (unlinked_same user l h))

pub length-unlinked :
    (user : ℕ) (l : List ℕ)
    → Distinct l
    → is_listed user l ≡ true
    → length l ≡ 1 + length (unlinked user l)
unfolding unlinked is_listed
length-unlinked user [] h e = cc
length-unlinked user (v ∷ l) (p, h) e = elim (Bool-cases (v == user)) [
  | inl hit ↦
      let other : Without user l = subst (λ w. Without w l) ((==_iff v user).0 hit) p in
      rw hit (omega (arith, ap length (unlinked_same user l other)))
  | inr miss ↦
      rw miss (omega (arith, length-unlinked user l h (sym (rw (miss, is_listed) refl) ∙ e)))
]

pub hashed_to-unlinked :
    (nick : ℕ → Bytes) (i user : ℕ) (l : List ℕ)
    → hashed_to nick i (unlinked user l) ≡ unlinked user (hashed_to nick i l)
unfolding hashed_to unlinked
hashed_to-unlinked nick i user [] = refl
hashed_to-unlinked nick i user (v ∷ l) = elim (Bool-cases (v == user)) [
  | inl hit ↦ elim (Bool-cases (hash (nick v) == i)) [
    | inl here ↦ rw (hit, here, hit) (hashed_to-unlinked nick i user l)
    | inr there ↦ rw (hit, there) (hashed_to-unlinked nick i user l)
  ]
  | inr miss ↦ elim (Bool-cases (hash (nick v) == i)) [
    | inl here ↦ rw (miss, here, miss) (ap (◌∷◌ v) (hashed_to-unlinked nick i user l))
    | inr there ↦ rw (miss, there) (hashed_to-unlinked nick i user l)
  ]
]

-- A user with another hash is not in the list.
pub hashed_to-Without :
    (nick : ℕ → Bytes) (i user : ℕ) (l : List ℕ)
    → (i == hash (nick user)) ≡ false
    → unlinked user (hashed_to nick i l) ≡ hashed_to nick i l
unfolding hashed_to unlinked
hashed_to-Without nick i user [] h = refl
hashed_to-Without nick i user (v ∷ l) h = elim (Bool-cases (hash (nick v) == i)) [
  | inr there ↦ rw there (hashed_to-Without nick i user l h)
  | inl here ↦ elim (Bool-cases (v == user)) [
    | inl hit ↦
        let same : hash (nick v) ≡ hash (nick user) =
          ap (λ w. hash (nick w)) ((==_iff v user).0 hit) in
        let at : hash (nick v) ≡ i = (==_iff (hash (nick v)) i).0 here in
        let other : (i == hash (nick user)) ≡ true =
          (==_iff i (hash (nick user))).1 (sym at ∙ same) in
        absurd cc
    | inr miss ↦ rw (here, miss) ((ap (◌∷◌ v) (hashed_to-Without nick i user l h)))
  ]
]

-- A user who is not in a list may change his nick.
pub hashed_to-put :
    (nick : ℕ → Bytes) (i user : ℕ) (new : Bytes) (l : List ℕ)
    → Without user l
    → hashed_to (put nick user new) i l ≡ hashed_to nick i l
unfolding hashed_to
hashed_to-put nick i user new [] h = refl
hashed_to-put nick i user new (v ∷ l) (p, h) = elim (Bool-cases (hash (nick v) == i)) [
  | inl here ↦ rw (p, here) (ap (◌∷◌ v) (hashed_to-put nick i user new l h))
  | inr there ↦ rw (p, there) (hashed_to-put nick i user new l h)
]

pub strscpy-IsText : (s : Bytes) → IsText s → IsText (strscpy s)
strscpy-IsText s h = go 31 s h
  where
    go : (n : ℕ) (t : Bytes) → IsText t → IsText (take n t)
    go zero t h = tt
    go (suc n) [] h = tt
    go (suc n) (c ∷ t) (p, h) = (p, go n t h)

pub put-IsText :
    (nick : ℕ → Bytes) (user : ℕ) (new : Bytes) (l : List ℕ)
    → Without user l
    → All (λ v. IsText (nick v)) l
    → All (λ v. IsText (put nick user new v)) l
put-IsText nick user new [] w h = tt
put-IsText nick user new (v ∷ l) (miss, w) (t, h) = (rw miss t, put-IsText nick user new l w h)
