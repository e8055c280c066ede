-- ===== src/Slist/Bounds.antt =====
-- slist.c: the capacity and the count, which are `int16`, under every sequence of operations.
pub mod Clearing
use k9_chatnet.Common.{
  [], ℕ, zero, suc, ◌+◌, ◌-◌, ◌≤◌, ◌<◌, ◌≡◌, refl, sym, ◌⊎◌, subst, inl, inr, true, false, List,
  ◌∷◌, Option, none, some, arith, length, length-append, get_elem?, length-take, leb, ltb, ◌==◌,
  ==_iff, ◌&&◌, Bool-cases, Option-cases,
}
use k9_chatnet.Common.Int.{ℤ, pos}
use k9_chatnet.Slist.{
  Opts, SList, erase, slist_full, slist_indexof, slist_setcapacity, insert_sorted, insert, grow,
  put, slist_add, is_some, slist_delete, free_at, remove_found, pack_one, pack_below, slist_pack,
}

pub length-erase :
    {A : Type 0} (xs : List A) (i : ℕ) → i < length xs → length (erase xs i) ≡ length xs - 1
unfolding erase
length-erase [] i h = elim h [ ]
length-erase (x ∷ xs) zero h = omega arith
length-erase (x ∷ xs) (suc i) h = omega (arith, length-erase xs i (omega arith))

-- The count is within the capacity, which an `int16` holds, and the limit is the default one.
abbrev pub IsBounded : {A : Type 0} → SList A → Type 0
IsBounded l = (length l.entries ≤ l.capacity) × (l.limit ≡ 32767) × (l.capacity ≤ 32767)

module _ {A : Type 0} (opts : Opts A) where
  -- A capacity that the count is within only changes the capacity.
  pub setcapacity-length :
      (l : SList A) (c : ℕ)
      → length l.entries ≤ c
      → slist_setcapacity opts l c ≡ record l { capacity = c }
  unfolding slist_setcapacity
  setcapacity-length l c h = elim (Bool-cases (l.capacity == c)) [
    | inl same ↦ rw same (λ k. record l { capacity = (==_iff l.capacity c).0 same k })
    | inr other ↦
        let fits : ltb c (length l.entries) ≡ false = ground arith in rw (other, fits) refl
  ]

  length-insert_sorted :
      (compare : A → Option A → ℤ) (x : A) (es : List (Option A))
      → length (insert_sorted opts compare x es) ≡ length es + 1
  unfolding insert_sorted
  length-insert_sorted compare x [] = omega arith
  length-insert_sorted compare x (e ∷ es) = ground (arith, length-insert_sorted compare x es)

  length-insert : (x : A) (es : List (Option A)) → length (insert opts x es) ≡ length es + 1
  unfolding insert
  length-insert x es = elim (Option-cases opts.sort) [
    | inl plain ↦ rw (plain, insert) (omega (arith, length-append es (some x ∷ [])))
    | inr (compare, sorted) ↦ rw (sorted, insert) (length-insert_sorted compare x es)
  ]

  -- The list that an addition writes to has one cell more.
  grown :
      (l : SList A)
      → l.capacity ≡ length l.entries
      → grow opts l ≡ record l { capacity = l.capacity + 1 }
  unfolding grow
  grown l h =
      let full : (l.capacity == length l.entries) ≡ true =
        (==_iff l.capacity (length l.entries)).1 h in
      rw full (setcapacity-length l (l.capacity + 1) (omega (arith, h)))

  -- The list behind an addition that is not refused.
  abbrev pub with_item : SList A → A → SList A
  with_item l x = record l { capacity = l.capacity + 1; entries = insert opts x l.entries }

  pub slist_add-added :
      (l : SList A) (x : A)
      → l.capacity ≡ length l.entries
      → slist_full opts l ≡ false
      → (opts.nodup && is_some opts (slist_indexof opts l x)) ≡ false
      → slist_add opts l x ≡ (with_item l x, pos (length l.entries))
  unfolding slist_add
  slist_add-added l x h room fresh = rw (room, fresh, slist_add, grown l h) refl

  -- An addition is refused, or adds the item.
  pub slist_add-cases :
      (l : SList A) (x : A)
      → l.capacity ≡ length l.entries
      → ((slist_add opts l x).0 ≡ l)
        ⊎ (slist_full opts l ≡ false)
          × ((opts.nodup && is_some opts (slist_indexof opts l x)) ≡ false)
          × (slist_add opts l x ≡ (with_item l x, pos (length l.entries)))
  unfolding slist_add
  slist_add-cases l x h = elim (Bool-cases (slist_full opts l)) [
    | inl full ↦ inl (rw (full, slist_add) refl)
    | inr room ↦ elim (Bool-cases (opts.nodup && is_some opts (slist_indexof opts l x))) [
      | inl known ↦ inl (rw (room, known, slist_add) refl)
      | inr fresh ↦ inr (room, fresh, slist_add-added l x h room fresh)
    ]
  ]

  slist_full-room :
      (l : SList A) → l.limit ≡ 32767 → slist_full opts l ≡ false → length l.entries < 32767
  unfolding slist_full
  slist_full-room l e h = ground arith

  put-IsBounded :
      (l : SList A) (x : A)
      → IsBounded l
      → length l.entries < 32767
      → IsBounded (put opts x (grow opts l))
  unfolding grow
  put-IsBounded l x h room =
      let longer = length-insert x l.entries in
      elim (Bool-cases (l.capacity == length l.entries)) [
        | inl full ↦
            let same : l.capacity ≡ length l.entries =
              (==_iff l.capacity (length l.entries)).0 full in
            rw (full, setcapacity-length l (l.capacity + 1) (omega (arith, h.0)))
              (omega (arith, longer, same), h.1, omega (arith, same, room))
        | inr more ↦
            let less : length l.entries < l.capacity = ground (arith, h.0) in
            rw more (omega (arith, longer, less), h.1, h.2)
      ]

  pub slist_add-IsBounded : (l : SList A) (x : A) → IsBounded l → IsBounded (slist_add opts l x).0
  unfolding slist_add
  slist_add-IsBounded l x h = elim (Bool-cases (slist_full opts l)) [
    | inl full ↦ rw full h
    | inr room ↦ elim (Bool-cases (opts.nodup && is_some opts (slist_indexof opts l x))) [
      | inl known ↦ rw (room, known) h
      | inr fresh ↦ rw (room, fresh) (put-IsBounded l x h (slist_full-room l h.1 room))
    ]
  ]

  pub slist_setcapacity-IsBounded :
      (l : SList A) (c : ℕ) → IsBounded l → c ≤ 32767 → IsBounded (slist_setcapacity opts l c)
  unfolding slist_setcapacity
  slist_setcapacity-IsBounded l c h small = elim (Bool-cases (l.capacity == c)) [
    | inl same ↦ rw same h
    | inr other ↦ elim (Bool-cases (ltb c (length l.entries))) [
      | inl shorter ↦ rw (other, shorter) (omega (arith, length-take c l.entries), h.1, small)
      | inr fits ↦ rw (other, fits) (ground arith, h.1, small)
    ]
  ]

  -- A deletion inside the list.
  slist_delete-within :
      (l : SList A) (i : ℕ)
      → length l.entries ≤ l.capacity
      → i < length l.entries
      → slist_delete opts l i ≡ (
        record l {
          entries = erase l.entries i;
          capacity = l.capacity - 1;
          freed = free_at opts (get_elem? l.entries i) l.freed;
        },
        true,
      )
  unfolding slist_delete
  slist_delete-within l i h inside =
      let past : leb (length l.entries) i ≡ false = ground arith in
      rw past (λ k. (
        setcapacity-length
            (record l {
              entries = erase l.entries i;
              freed = free_at opts (get_elem? l.entries i) l.freed;
            })
            (l.capacity - 1) (omega (arith, length-erase l.entries i inside, h)) k,
        true,
      ))

  pub slist_delete-inside :
      (l : SList A) (i : ℕ)
      → l.capacity ≡ length l.entries
      → i < length l.entries
      → slist_delete opts l i ≡ (
        record l {
          entries = erase l.entries i;
          capacity = l.capacity - 1;
          freed = free_at opts (get_elem? l.entries i) l.freed;
        },
        true,
      )
  slist_delete-inside l i h inside = slist_delete-within l i (omega (arith, h)) inside

  pub slist_delete-IsBounded :
      (l : SList A) (i : ℕ) → IsBounded l → IsBounded (slist_delete opts l i).0
  slist_delete-IsBounded l i h = elim (Bool-cases (leb (length l.entries) i)) [
    | inl past ↦ unfold slist_delete in rw past h
    | inr inside ↦
        let less : i < length l.entries = ground arith in
        let shorter = length-erase l.entries i less in
        subst IsBounded (λ k. (sym (slist_delete-within l i h.0 less) k).0)
          (omega (arith, shorter, h.0), h.1, omega (arith, h.2))
  ]

  pub remove_found-IsBounded :
      (l : SList A) (o : Option ℕ) → IsBounded l → IsBounded (remove_found opts l o).0
  remove_found-IsBounded l none h = h
  remove_found-IsBounded l (some i) h = slist_delete-IsBounded l i h

  pack_one-IsBounded :
      (l : SList A) (i : ℕ) (o : Option (Option A)) → IsBounded l → IsBounded (pack_one opts l i o)
  pack_one-IsBounded l i none h = h
  pack_one-IsBounded l i (some none) h = slist_delete-IsBounded l i h
  pack_one-IsBounded l i (some (some x)) h = h

  pack_below-IsBounded : (i : ℕ) (l : SList A) → IsBounded l → IsBounded (pack_below opts i l)
  unfolding pack_below
  pack_below-IsBounded zero l h = h
  pack_below-IsBounded (suc i) l h =
      pack_below-IsBounded i _ (pack_one-IsBounded l i (get_elem? l.entries i) h)

  pub slist_pack-IsBounded : (l : SList A) → IsBounded l → IsBounded (slist_pack opts l)
  unfolding slist_pack
  slist_pack-IsBounded l h = pack_below-IsBounded (length l.entries) l h
