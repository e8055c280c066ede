-- ===== src/Slist/Order.antt =====
-- slist.c: `slist_add` with SLISTF_SORT keeps the order of `compareitem`.
use k9_chatnet.Common.{
  [], ◌≡◌, refl, ap, subst, ◌∙◌, inl, inr, true, false, List, ◌∷◌, ◌++◌, map, Option, some, length,
  Bool-cases, All, All-middle, ◌&&◌,
}
use k9_chatnet.Common.Int.{ℤ, pos, leb_ℤ}
use k9_chatnet.Slist.{
  Opts, SList, insert, insert_sorted, slist_full, slist_indexof, slist_add, is_some,
}
use k9_chatnet.Slist.Bounds.{slist_add-added}

module _ {A : Type 0} (opts : Opts A) (compare : A → Option A → ℤ) where
  -- `compareitem` puts the first item before the second, or finds them equal.
  abbrev pub Le : A → A → Type 0
  Le x y = leb_ℤ (compare x (some y)) (pos 0) ≡ true

  -- Every item is before all that follow it.
  abbrev pub Sorted : List A → Type 0
  Sorted [] = Unit
  Sorted (x ∷ xs) = All (Le x) xs × Sorted xs

  -- `compareitem` is an order: it is transitive, and of two items one is before the other.
  abbrev pub IsOrder : Type 0
  IsOrder =
      ((x y z : A) → Le x y → Le y z → Le x z)
      × ((x y : A) → leb_ℤ (compare x (some y)) (pos 0) ≡ false → Le y x)

  All-Le : IsOrder → (x y : A) (zs : List A) → Le x y → All (Le y) zs → All (Le x) zs
  All-Le o x y [] h a = tt
  All-Le o x y (z ∷ zs) h a = (o.0 x y z h a.0, All-Le o x y zs h a.1)

  -- The list with the item put at a place where it keeps the order.
  abbrev Placed : A → List A → List (Option A) → Type 0
  Placed x xs es =
      (before : List A) × (after : List A) × (xs ≡ before ++ after)
      × (es ≡ map some (before ++ x ∷ after))
      × Sorted (before ++ x ∷ after)

  insert_sorted-Placed :
      IsOrder
      → (x : A) (xs : List A) → Sorted xs
      → Placed x xs (insert_sorted opts compare x (map some xs))
  unfolding insert_sorted
  insert_sorted-Placed o x [] s = ([], [], refl, refl, (tt, tt))
  insert_sorted-Placed o x (y ∷ xs) s = elim (Bool-cases (leb_ℤ (compare x (some y)) (pos 0))) [
    | inl here ↦ rw here ([], y ∷ xs, refl, refl, ((here, All-Le o x y xs here s.0), s))
    | inr later ↦
        let (before, after, split, joined, sorted) = insert_sorted-Placed o x xs s.1 in
        rw later (
          y ∷ before,
          after,
          ap (◌∷◌ y) split,
          ap (◌∷◌ (some y)) joined,
          (
            (All-middle (Le y) before x after).1 (o.1 x y later, subst (All (Le y)) split s.0),
            sorted,
          ),
        )
  ]

  -- When `compareitem` is an order and the entries are sorted, an addition that is not refused puts the
  -- item at one place between them and leaves them sorted.
  pub slist_add-Sorted :
      opts.sort ≡ some compare
      → IsOrder
      → (l : SList A) (x : A) (xs : List A) → l.capacity ≡ length l.entries
      → l.entries ≡ map some xs
      → Sorted xs
      → slist_full opts l ≡ false
      → (opts.nodup && is_some opts (slist_indexof opts l x)) ≡ false
      → (before : List A) × (after : List A) × (xs ≡ before ++ after)
        × ((slist_add opts l x).0.entries ≡ map some (before ++ x ∷ after))
        × Sorted (before ++ x ∷ after)
  unfolding insert insert_sorted
  slist_add-Sorted kind o l x xs fits full s room fresh =
      let (before, after, split, joined, sorted) = insert_sorted-Placed o x xs s in
      let entries : insert opts x l.entries ≡ insert_sorted opts compare x (map some xs) =
        rw (kind, insert) (ap (insert_sorted opts compare x) full) in
      (
        before,
        after,
        split,
        (λ k. (slist_add-added opts l x fits room fresh k).0.entries) ∙ entries ∙ joined,
        sorted,
      )
