-- ===== src/Channel/Counts.antt =====
-- channels.c: how often a user is in a channel's list and a channel in his, and what a removal leaves.
use k9_chatnet.Common.{
  ℕ, ◌+◌, ◌≡◌, refl, sym, ap, ◌∙◌, ◌↔◌, inl, inr, Bool, true, false, List, [], ◌∷◌, Bytes, Option,
  none, some, arith, length, ◌==◌, ==_iff, ==-refl, if◌then◌else◌, Bool-cases,
}
use k9_chatnet.Text.Case.{same_text}
use k9_chatnet.Channel.{
  Member, update, remove_user, keep_user, keep_member, remove_member, is_on_list,
}

abbrev pub bit : Bool → ℕ
bit true = 1
bit false = 0

-- How often a channel is in a user's list, and a user in a channel's.
unfoldable pub times_in : ℕ → List Member → ℕ
times_in c [] = 0
times_in c (m ∷ ms) = bit (m.chan == c) + times_in c ms

unfoldable pub times_on : ℕ → List ℕ → ℕ
times_on user [] = 0
times_on user (u ∷ us) = bit (u == user) + times_on user us

module _ {A : Type 0} where
  pub update_same : (f : ℕ → A) (i : ℕ) (a : A) → update f i a i ≡ a
  update_same f i a = rw (==-refl i) refl

  -- What is measured at the updated place changes by `n`, and nothing else does.
  pub update_measure :
      (g : A → ℕ) (f : ℕ → A) (i : ℕ) (a : A) (n k : ℕ)
      → g a ≡ n + g (f i)
      → g (update f i a k) ≡ (if k == i then n else 0) + g (f k)
  update_measure g f i a n k h = elim (Bool-cases (k == i)) [
    | inl hit ↦ rw hit (h ∙ ap (λ j. n + g (f j)) (sym ((==_iff k i).0 hit)))
    | inr miss ↦ rw miss (omega arith)
  ]

pub bits :
    (u user c d : ℕ)
    → (if u == user then bit (c == d) else 0) ≡ (if d == c then bit (user == u) else 0)
bits u user c d = ground arith

module _ {A : Type 0} where
  -- The same for two values at one place, and for the value that was there.
  pub update_less :
      (g : A → ℕ) (f : ℕ → A) (i : ℕ) (a b : A) (n k : ℕ)
      → g a ≡ n + g b
      → g (update f i a k) ≡ (if k == i then n else 0) + g (update f i b k)
  update_less g f i a b n k h = elim (Bool-cases (k == i)) [
    | inl hit ↦ rw hit h
    | inr miss ↦ rw miss (omega arith)
  ]

  pub update_from :
      (g : A → ℕ) (f : ℕ → A) (i : ℕ) (b : A) (n k : ℕ)
      → g (f i) ≡ n + g b
      → g (f k) ≡ (if k == i then n else 0) + g (update f i b k)
  update_from g f i b n k h = elim (Bool-cases (k == i)) [
    | inl hit ↦ rw hit (ap (λ j. g (f j)) ((==_iff k i).0 hit) ∙ h)
    | inr miss ↦ rw miss (omega arith)
  ]

-- The list that is left, and the user that is taken out of it.
abbrev pub Removed : ℕ → List ℕ → Option (List ℕ) → Type 0
Removed user us none = times_on user us ≡ 0
Removed user us (some l) =
    (length us ≡ 1 + length l) × ((v : ℕ) → times_on v us ≡ bit (user == v) + times_on v l)

keep_user-Removed :
    (user u : ℕ) (us : List ℕ) (o : Option (List ℕ))
    → (u == user) ≡ false
    → Removed user us o
    → Removed user (u ∷ us) (keep_user u o)
unfolding times_on
keep_user-Removed user u us none miss h = rw miss (omega (arith, h))
keep_user-Removed user u us (some l) miss h = (omega (arith, h.0), λ v. omega (arith, h.1 v))

pub remove_user-Removed : (user : ℕ) (us : List ℕ) → Removed user us (remove_user user us)
unfolding remove_user times_on
remove_user-Removed user [] = refl
remove_user-Removed user (u ∷ us) = elim (Bool-cases (u == user)) [
  | inl hit ↦
      rw hit (omega arith, λ v. ap (λ k. bit (k == v) + times_on v us) ((==_iff u user).0 hit))
  | inr miss ↦
      rw miss (keep_user-Removed user u us (remove_user user us) miss (remove_user-Removed user us))
]

abbrev pub RemovedMember : List Member → Option (ℕ × List Member) → Type 0
RemovedMember ms none = Unit
RemovedMember ms (some (c, l)) = (d : ℕ) → times_in d ms ≡ bit (c == d) + times_in d l

keep_member-RemovedMember :
    (m : Member) (ms : List Member) (o : Option (ℕ × List Member))
    → RemovedMember ms o
    → RemovedMember (m ∷ ms) (keep_member m o)
unfolding times_in
keep_member-RemovedMember m ms none h = tt
keep_member-RemovedMember m ms (some (c, l)) h = λ d. omega (arith, h d)

pub remove_member-RemovedMember :
    (name : ℕ → Bytes) (chan : Bytes) (ms : List Member)
    → RemovedMember ms (remove_member name chan ms)
unfolding remove_member times_in
remove_member-RemovedMember name chan [] = tt
remove_member-RemovedMember name chan (m ∷ ms) = elim (Bool-cases (same_text chan (name m.chan))) [
  | inl hit ↦ rw hit (λ d. refl)
  | inr miss ↦ rw miss (
      keep_member-RemovedMember m ms (remove_member name chan ms)
        (remove_member-RemovedMember name chan ms))
]

pub is_on_list_iff : (c : ℕ) (ms : List Member) → (is_on_list c ms ≡ false) ↔ (times_in c ms ≡ 0)
unfolding is_on_list times_in
is_on_list_iff c [] = (λ e. refl, λ e. refl)
is_on_list_iff c (m ∷ ms) = elim (Bool-cases (m.chan == c)) [
  | inl hit ↦ rw hit (λ e. absurd cc, λ e. absurd (omega (arith, e)))
  | inr miss ↦
      let rest = is_on_list_iff c ms in
      rw miss (λ e. omega (arith, rest.0 e), λ e. rest.1 (omega (arith, e)))
]
