-- ===== src/Slist.antt =====
-- slist.c: the lists of pointers. An entry is none for NULL; the entries are the first `count` cells of
-- the array, so `count` is their length. `freed` are the items that `freeitem` was called with. The
-- counts are unbounded here; Bounds is about their `int16`.
pub mod Bounds
pub mod History
pub mod Order
pub mod Undo
pub mod Pack
pub mod Blank
pub mod Ranges
use k9_chatnet.Common.{
  ℕ, zero, suc, ◌+◌, ◌-◌, min, Bool, true, false, not, ◌&&◌, List, [], ◌∷◌, ◌++◌, Bytes, Option,
  none, some, take, length, get_elem?, set, ltb, leb, ◌==◌, if◌then◌else◌,
}
use k9_chatnet.Common.Int.{ℤ, pos, negsuc, leb_ℤ}
use k9_chatnet.Text.Number.{is_comma, skip_to, parse_item}

pub record Opts (A : Type 0) : Type 0 where
  -- SLISTF_NODUP
  pub nodup : Bool
  -- `compareitem`, where SLISTF_SORT is set too
  pub sort : Option (A → Option A → ℤ)
  -- `isequal`, or the comparison of the pointers
  pub isequal : A → Option A → Bool
  -- whether there is a `freeitem`
  pub frees : Bool

pub record SList (A : Type 0) : Type 0 where
  pub entries : List (Option A)
  pub capacity : ℕ
  pub limit : ℕ
  pub freed : List A

unfoldable pub erase : {A : Type 0} → List A → ℕ → List A
erase [] i = []
erase (x ∷ xs) zero = xs
erase (x ∷ xs) (suc i) = x ∷ erase xs i

module _ {A : Type 0} (opts : Opts A) where
  unfoldable pub slist_init : SList A
  slist_init = record { entries = []; capacity = 0; limit = 32767; freed = [] }

  unfoldable pub slist_full : SList A → Bool
  slist_full l = not (l.limit == 0) && leb l.limit (length l.entries)

  -- The loop of `slist_indexof` from index `i` on; none is -1.
  unfoldable pub index_from : A → ℕ → List (Option A) → Option ℕ
  index_from x i [] = none
  index_from x i (e ∷ es) =
      let later = index_from x (suc i) es in if opts.isequal x e then some i else later

  unfoldable pub slist_indexof : SList A → A → Option ℕ
  slist_indexof l x = index_from x 0 l.entries

  unfoldable pub slist_setcapacity : SList A → ℕ → SList A
  slist_setcapacity l c =
      if l.capacity == c
      then l
      else if ltb c (length l.entries)
      then record l { capacity = c; entries = take c l.entries }
      else record l { capacity = c }

  -- The sorted loop of `slist_add`.
  unfoldable pub insert_sorted : (A → Option A → ℤ) → A → List (Option A) → List (Option A)
  insert_sorted compare x [] = some x ∷ []
  insert_sorted compare x (e ∷ es) =
      let later = insert_sorted compare x es in
      if leb_ℤ (compare x e) (pos 0) then some x ∷ e ∷ es else e ∷ later

  unfoldable pub insert : A → List (Option A) → List (Option A)
  insert x es = elim opts.sort [
    | none ↦ es ++ some x ∷ []
    | some compare ↦ insert_sorted compare x es
  ]

  -- `capacity == count` asks for one cell more.
  unfoldable pub grow : SList A → SList A
  grow l = if l.capacity == length l.entries then slist_setcapacity l (l.capacity + 1) else l

  abbrev pub is_some : {B : Type 0} → Option B → Bool
  is_some none = false
  is_some (some b) = true

  abbrev pub put : A → SList A → SList A
  put x l = record l { entries = insert x l.entries }

  -- The new list, and the index that is returned: the count before the addition.
  unfoldable pub slist_add : SList A → A → SList A × ℤ
  slist_add l x =
      if slist_full l
      then (l, negsuc 1)
      else if opts.nodup && is_some (slist_indexof l x)
      then (l, negsuc 2)
      else (put x (grow l), pos (length l.entries))

  abbrev pub free_entry : Option A → List A → List A
  free_entry none freed = freed
  free_entry (some x) freed = if opts.frees then freed ++ x ∷ [] else freed

  abbrev pub free_at : Option (Option A) → List A → List A
  free_at none freed = freed
  free_at (some e) freed = free_entry e freed

  abbrev free_all : List (Option A) → List A → List A
  free_all [] freed = freed
  free_all (e ∷ es) freed = free_all es (free_entry e freed)

  unfoldable pub slist_clear : SList A → Bool → SList A
  slist_clear l mustfree = record l {
    entries = [];
    capacity = 0;
    freed = if mustfree then free_all l.entries l.freed else l.freed;
  }

  unfoldable pub slist_delete : SList A → ℕ → SList A × Bool
  slist_delete l i = if leb (length l.entries) i then (l, false) else (
    slist_setcapacity
        (record l { entries = erase l.entries i; freed = free_at (get_elem? l.entries i) l.freed })
        (l.capacity - 1),
    true,
  )

  abbrev pub remove_found : SList A → Option ℕ → SList A × Option ℕ
  remove_found l none = (l, none)
  remove_found l (some i) = ((slist_delete l i).0, some i)

  unfoldable pub slist_remove : SList A → A → SList A × Option ℕ
  slist_remove l x = remove_found l (slist_indexof l x)

  -- `if (!slist->list[i]) slist_delete(slist, i)`
  abbrev pub pack_one : SList A → ℕ → Option (Option A) → SList A
  pack_one l i (some none) = (slist_delete l i).0
  pack_one l i (some (some x)) = l
  pack_one l i none = l

  -- The loop of `slist_pack` below index `i`, downwards.
  unfoldable pub pack_below : ℕ → SList A → SList A
  pack_below zero l = l
  pack_below (suc i) l = pack_below i (pack_one l i (get_elem? l.entries i))

  unfoldable pub slist_pack : SList A → SList A
  slist_pack l = pack_below (length l.entries) l

  -- The deletions so far: the list, and their number.
  abbrev pub Cleared : Type 0
  Cleared = SList A × ℕ

  -- `slist->list[i] = NULL` behind `freeitem`.
  abbrev pub clear_at : ℕ → A → Cleared → Cleared
  clear_at i x (l, n) =
      (record l { entries = set l.entries i none; freed = free_entry (some x) l.freed }, n + 1)

  -- One round for the index `i`; `true` is a refusal of the callback.
  abbrev pub clear_one : (A → Bool) → ℕ → Cleared → Option (Option A) → Cleared × Bool
  clear_one allowed i c (some (some x)) = if allowed x then (clear_at i x c, false) else (c, true)
  clear_one allowed i c _ = (c, false)

  abbrev pub next_round : (Cleared → Cleared × Bool) → Cleared × Bool → Cleared × Bool
  next_round again (c, true) = (c, true)
  next_round again (c, false) = again c

  unfoldable pub clear_walk : (A → Bool) → ℕ → ℕ → Cleared → Cleared × Bool
  clear_walk allowed zero i c = (c, false)
  clear_walk allowed (suc r) i c =
      next_round (clear_walk allowed r (suc i)) (clear_one allowed i c (get_elem? c.0.entries i))

  -- The rounds of `for (i = n1; i <= n2 && i > 0 && i <= slist->count; i++)` from index `n1 - 1` on.
  unfoldable pub clear_item : (A → Bool) → ℤ → ℤ → Cleared → Cleared × Bool
  clear_item allowed (pos (suc a)) (pos b) c =
      clear_walk allowed (min b (length c.0.entries) - a) a c
  clear_item allowed _ _ c = (c, false)

  -- Behind an item: the refusal, the end of the string, or the next item.
  abbrev pub after_item :
      (Bytes → Cleared → Option (Cleared × Bool)) → Cleared × Bool → Bytes → Option (Cleared × Bool)
  after_item again (c, true) rest = some (c, true)
  after_item again (c, false) [] = some (c, false)
  after_item again (c, false) (b ∷ rest) = again rest c

  abbrev pub run_item :
      (A → Bool)
      → (Bytes → Cleared → Option (Cleared × Bool))
      → Cleared
      → ℤ × ℤ × Bytes
      → Option (Cleared × Bool)
  run_item allowed again c (n1, n2, rest) =
      after_item again (clear_item allowed n1 n2 c) (skip_to is_comma rest)

  -- The outer loop; `none` is the end of the fuel.
  unfoldable pub clear_loop : (A → Bool) → ℕ → Bytes → Cleared → Option (Cleared × Bool)
  clear_loop allowed zero s c = none
  clear_loop allowed (suc fuel) s c = run_item allowed (clear_loop allowed fuel) c (parse_item s)

  -- A refusal returns before the list is packed; none is -1.
  abbrev pub finish : Cleared × Bool → SList A × Option ℕ
  finish ((l, n), true) = (l, none)
  finish ((l, n), false) = (slist_pack l, some n)

  abbrev pub finish_all : Option (Cleared × Bool) → Option (SList A × Option ℕ)
  finish_all none = none
  finish_all (some r) = some (finish r)

  unfoldable pub slist_delete_range : (A → Bool) → SList A → Bytes → Option (SList A × Option ℕ)
  slist_delete_range allowed l range =
      finish_all (clear_loop allowed (suc (length range)) range (l, 0))
