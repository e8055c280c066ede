-- ===== src/Slist/Undo.antt =====
-- slist.c: `slist_remove` behind `slist_add`, on a list with an order and on one without.
use k9_chatnet.Common.{
  [], ℕ, suc, ◌+◌, ◌-◌, ◌<◌, ◌≡◌, refl, sym, ap, subst, ◌∙◌, inl, inr, Bool, true, false, List, ◌∷◌,
  ◌++◌, Option, none, some, arith, length, get_elem?, length-append, Bool-cases, Option-cases, ◌&&◌,
}
use k9_chatnet.Common.Int.{ℤ, pos, leb_ℤ}
use k9_chatnet.Slist.{
  Opts, SList, erase, index_from, insert, insert_sorted, slist_full, slist_indexof, slist_add,
  slist_remove, free_entry, remove_found, is_some, free_at,
}
use k9_chatnet.Slist.Bounds.{slist_add-added, slist_delete-inside}
use k9_chatnet.Common.{append-nil}

module _ {A : Type 0} where
  get_elem?-middle :
      (xs : List A) (y : A) (ys : List A) → get_elem? (xs ++ y ∷ ys) (length xs) ≡ some y
  get_elem?-middle [] y ys = refl
  get_elem?-middle (x ∷ xs) y ys = get_elem?-middle xs y ys

  erase-middle : (xs : List A) (y : A) (ys : List A) → erase (xs ++ y ∷ ys) (length xs) ≡ xs ++ ys
  unfolding erase
  erase-middle [] y ys = refl
  erase-middle (x ∷ xs) y ys = ap (◌∷◌ x) (erase-middle xs y ys)

module _ {A : Type 0} (opts : Opts A) where
  -- The entries with the item at some place between them.
  abbrev pub Inserted : A → List (Option A) → List (Option A) → Type 0
  Inserted x es fs =
      (before : List (Option A)) × (after : List (Option A)) × (es ≡ before ++ after)
      × (fs ≡ before ++ some x ∷ after)

  insert_sorted-Inserted :
      (compare : A → Option A → ℤ) (x : A) (es : List (Option A))
      → Inserted x es (insert_sorted opts compare x es)
  unfolding insert_sorted
  insert_sorted-Inserted compare x [] = ([], [], refl, refl)
  insert_sorted-Inserted compare x (e ∷ es) = elim (Bool-cases (leb_ℤ (compare x e) (pos 0))) [
    | inl here ↦ rw here ([], e ∷ es, refl, refl)
    | inr later ↦
        let (before, after, split, joined) = insert_sorted-Inserted compare x es in
        rw later (e ∷ before, after, ap (◌∷◌ e) split, ap (◌∷◌ e) joined)
  ]

  pub insert-Inserted : (x : A) (es : List (Option A)) → Inserted x es (insert opts x es)
  unfolding insert
  insert-Inserted x es = elim (Option-cases opts.sort) [
    | inl plain ↦ rw (plain, insert) (es, [], sym (append-nil es), refl)
    | inr (compare, sorted) ↦ rw (sorted, insert) (insert_sorted-Inserted compare x es)
  ]

  -- The first place of an item that is at no place before.
  index_from-middle :
      (x : A) (i : ℕ) (before after : List (Option A))
      → opts.isequal x (some x) ≡ true
      → index_from opts x i (before ++ after) ≡ none
      → index_from opts x i (before ++ some x ∷ after) ≡ some (i + length before)
  unfolding index_from
  index_from-middle x i [] after h e = rw h (ap some (omega arith))
  index_from-middle x i (b ∷ before) after h e = elim (Bool-cases (opts.isequal x b)) [
    | inl equal ↦ cc
    | inr other ↦ rw other (
        index_from-middle x (suc i) before after h (sym (rw (other, index_from) refl) ∙ e)
        ∙ ap some (omega arith))
  ]

  -- The removal of an item that stands at one place.
  slist_remove-middle :
      (l : SList A) (x : A) (before after : List (Option A))
      → opts.isequal x (some x) ≡ true
      → l.capacity ≡ length (before ++ some x ∷ after)
      → index_from opts x 0 (before ++ after) ≡ none
      → (slist_remove opts (record l { entries = before ++ some x ∷ after }) x).0 ≡ record l {
        entries = before ++ after;
        capacity = l.capacity - 1;
        freed = free_entry opts (some x) l.freed;
      }
  unfolding slist_remove slist_indexof
  slist_remove-middle l x before after h fits fresh =
      let m : SList A = record l { entries = before ++ some x ∷ after } in
      let less : length before < length m.entries =
        omega (arith, length-append before (some x ∷ after)) in
      ap (λ o. (remove_found opts m o).0)
        (index_from-middle x 0 before after h fresh ∙ ap some (omega arith))
      ∙ ap (λ (r : SList A × Bool). r.0) (slist_delete-inside opts m (length before) fits less)
      ∙ (λ k. record l {
        entries = erase-middle before (some x) after k;
        capacity = l.capacity - 1;
        freed = free_at opts (get_elem?-middle before (some x) after k) l.freed;
      })

  unknown : (b : Bool) (o : Option ℕ) → o ≡ none → (b && is_some opts o) ≡ false
  unknown b none e = ground arith
  unknown b (some i) e = cc

  -- An item that is added behind a search that does not find it is the one that `slist_remove` takes
  -- out: the entries and the capacity are as before, and `freeitem` is called with it last.
  pub slist_remove-add :
      (l : SList A) (x : A)
      → opts.isequal x (some x) ≡ true
      → l.capacity ≡ length l.entries
      → slist_full opts l ≡ false
      → slist_indexof opts l x ≡ none
      → (slist_remove opts (slist_add opts l x).0 x).0
        ≡ record l { freed = free_entry opts (some x) l.freed }
  unfolding slist_remove slist_indexof
  slist_remove-add l x h fits room fresh =
      let (before, after, split, joined) = insert-Inserted x l.entries in
      let done =
        slist_add-added opts l x fits room (unknown opts.nodup (slist_indexof opts l x) fresh) in
      let back : l.capacity + 1 - 1 ≡ l.capacity = omega arith in
      let longer : l.capacity + 1 ≡ length (before ++ some x ∷ after) = omega (
        arith,
        fits,
        ap length split,
        length-append before after,
        length-append before (some x ∷ after),
      ) in
      ap (λ (r : SList A × ℤ). (slist_remove opts r.0 x).0) done
      ∙ ap (λ es. (slist_remove opts (record l { entries = es; capacity = l.capacity + 1 }) x).0)
          joined
      ∙ slist_remove-middle (record l { capacity = l.capacity + 1 }) x before after h longer
          (subst (λ es. index_from opts x 0 es ≡ none) split fresh)
      ∙ (λ k. record l {
        entries = sym split k;
        capacity = back k;
        freed = free_entry opts (some x) l.freed;
      })
