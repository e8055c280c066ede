-- ===== src/Text/Order/Named.antt =====
-- Lists in the order of their entries' names, as hostserv.c, chanserv.c and nickserv.c keep them, and a
-- search through the whole list.
use k9_chatnet.Common.{
  ◌≡◌, refl, sym, ◌∙◌, inl, inr, true, false, List, [], ◌∷◌, ◌++◌, Bytes, Option, none, some,
  if◌then◌else◌, Bool-cases, All,
}
use k9_chatnet.Text.Case.{same_text}
use k9_chatnet.Text.Order.{
  is_before, same_text_cong, same_text_sym, is_before_irrefl, same_is_before,
}

module _ {A : Type 0} (name : A → Bytes) where
  -- Each name comes before those behind it, so that no two are the same.
  abbrev pub SortedBy : List A → Type 0
  SortedBy [] = Unit
  SortedBy (x ∷ xs) = All (λ y. is_before (name x) (name y) ≡ true) xs × SortedBy xs

  -- The first entry with a name.
  unfoldable pub first_named : Bytes → List A → Option A
  first_named n [] = none
  first_named n (x ∷ xs) = if same_text n (name x) then some x else first_named n xs

  All-split : (P : A → Type 0) (b a : List A) → All P (b ++ a) → All P b × All P a
  All-split P [] a h = (tt, h)
  All-split P (x ∷ b) a (h, hs) = let (l, r) = All-split P b a hs in ((h, l), r)

  All-join : (P : A → Type 0) (b a : List A) → All P b → All P a → All P (b ++ a)
  All-join P [] a l r = r
  All-join P (x ∷ b) a (h, l) r = (h, All-join P b a l r)

  pub All-map : (P Q : A → Type 0) (xs : List A) → ((x : A) → P x → Q x) → All P xs → All Q xs
  All-map P Q [] f h = tt
  All-map P Q (x ∷ xs) f (h, hs) = (f x h, All-map P Q xs f hs)

  -- Nothing that comes later has a name that comes before.
  pub first_named-none :
      (n : Bytes) (xs : List A)
      → All (λ y. is_before n (name y) ≡ true) xs
      → first_named n xs ≡ none
  unfolding first_named
  first_named-none n [] h = refl
  first_named-none n (x ∷ xs) (h, hs) =
      rw (is_before_irrefl n (name x) h) (first_named-none n xs hs)

  -- An entry put between those before it and those after it.
  pub SortedBy-insert :
      (b : List A) (c : A) (a : List A)
      → SortedBy (b ++ a)
      → All (λ y. is_before (name y) (name c) ≡ true) b
      → All (λ y. is_before (name c) (name y) ≡ true) a
      → SortedBy (b ++ c ∷ a)
  SortedBy-insert [] c a s l r = (r, s)
  SortedBy-insert (x ∷ b) c a (h, s) (l, ls) r =
      let (front, behind) = All-split (λ y. is_before (name x) (name y) ≡ true) b a h in
      (
        All-join (λ y. is_before (name x) (name y) ≡ true) b (c ∷ a) front (l, behind),
        SortedBy-insert b c a s ls r,
      )

  pub first_named-insert :
      (m : Bytes) (b : List A) (c : A) (a : List A)
      → All (λ y. is_before (name y) (name c) ≡ true) b
      → first_named m (b ++ c ∷ a)
        ≡ (if same_text m (name c) then some c else first_named m (b ++ a))
  unfolding first_named
  first_named-insert m [] c a l = refl
  first_named-insert m (x ∷ b) c a (l, ls) = elim (Bool-cases (same_text m (name x))) [
    | inr other ↦ rw other (first_named-insert m b c a ls)
    | inl hit ↦
        let differ : same_text m (name c) ≡ false =
          same_text_cong m (name x) (name c) hit ∙ is_before_irrefl (name x) (name c) l in
        rw (hit, differ) refl
  ]

  pub SortedBy-delete :
      (b : List A) (c : A) (a : List A) → SortedBy (b ++ c ∷ a) → SortedBy (b ++ a)
  SortedBy-delete [] c a (h, s) = s
  SortedBy-delete (x ∷ b) c a (h, s) =
      let (front, (own, behind)) =
        All-split (λ y. is_before (name x) (name y) ≡ true) b (c ∷ a) h in
      (All-join (λ y. is_before (name x) (name y) ≡ true) b a front behind, SortedBy-delete b c a s)

  pub first_named-delete :
      (m : Bytes) (b : List A) (c : A) (a : List A)
      → SortedBy (b ++ c ∷ a)
      → first_named m (b ++ a) ≡ (if same_text m (name c) then none else first_named m (b ++ c ∷ a))
  unfolding first_named
  first_named-delete m [] c a (h, s) = elim (Bool-cases (same_text m (name c))) [
    | inr other ↦ rw other refl
    | inl hit ↦ rw hit (
        first_named-none m a (
          All-map (λ y. is_before (name c) (name y) ≡ true) (λ y. is_before m (name y) ≡ true) a
            (λ y e. same_is_before m (name c) (name y) hit e) h))
  ]
  first_named-delete m (x ∷ b) c a (h, s) = elim (Bool-cases (same_text m (name x))) [
    | inr other ↦ rw other (first_named-delete m b c a s)
    | inl hit ↦
        let (front, (own, behind)) =
          All-split (λ y. is_before (name x) (name y) ≡ true) b (c ∷ a) h in
        let differ : same_text m (name c) ≡ false =
          same_text_cong m (name x) (name c) hit ∙ is_before_irrefl (name x) (name c) own in
        rw (hit, differ) refl
  ]

  -- Entries that come before a name do not have it.
  pub first_named-skip :
      (n : Bytes) (b a : List A)
      → All (λ y. is_before (name y) n ≡ true) b
      → first_named n (b ++ a) ≡ first_named n a
  unfolding first_named
  first_named-skip n [] a h = refl
  first_named-skip n (x ∷ b) a (h, hs) = elim (Bool-cases (same_text n (name x))) [
    | inr other ↦ rw other (first_named-skip n b a hs)
    | inl hit ↦
        let wrong : false ≡ true =
          sym (is_before_irrefl (name x) n h) ∙ same_text_sym n (name x) hit in
        cc
  ]
