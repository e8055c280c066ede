-- ===== src/Slist/History.antt =====
-- slist.c: what holds of a list after any sequence of operations on an empty one.
use k9_chatnet.Common.{
  ℕ, ◌≤◌, ◌≡◌, refl, sym, subst, ap, ◌∙◌, suc, inl, inr, Bool, true, false, Bytes, Option, none,
  some, arith, length, Option-cases,
}
use k9_chatnet.Slist.{
  Opts, SList, slist_init, slist_add, slist_delete, slist_remove, slist_indexof, slist_setcapacity,
  slist_pack, slist_clear, Cleared, clear_loop, slist_delete_range, finish, finish_all,
}
use k9_chatnet.Slist.Bounds.Clearing.{loop-IsBounded}
use k9_chatnet.Slist.Bounds.{
  IsBounded, slist_setcapacity-IsBounded, slist_add-IsBounded, slist_delete-IsBounded,
  remove_found-IsBounded, slist_pack-IsBounded,
}
use k9_chatnet.Common.{suc}

-- One operation.
pub data Step {A : Type 0} (opts : Opts A) : SList A → SList A → Type 0 where
  add : (l : SList A) (x : A) → Step opts l (slist_add opts l x).0
  delete : (l : SList A) (i : ℕ) → Step opts l (slist_delete opts l i).0
  remove : (l : SList A) (x : A) → Step opts l (slist_remove opts l x).0
  pack : (l : SList A) → Step opts l (slist_pack opts l)
  setcapacity : (l : SList A) (c : ℕ) → c ≤ 32767 → Step opts l (slist_setcapacity opts l c)
  clear : (l : SList A) (mustfree : Bool) → Step opts l (slist_clear opts l mustfree)
  delete_range :
      (l l' : SList A) (allowed : A → Bool) (range : Bytes) (result : Option ℕ)
      → slist_delete_range opts allowed l range ≡ some (l', result)
      → Step opts l l'

-- The lists that an empty one can become.
pub data Reached {A : Type 0} (opts : Opts A) : SList A → Type 0 where
  start : Reached opts (slist_init opts)
  next : (l l' : SList A) → Reached opts l → Step opts l l' → Reached opts l'

module _ {A : Type 0} (opts : Opts A) where
  finish-IsBounded : (r : Cleared opts × Bool) → IsBounded r.0.0 → IsBounded (finish opts r).0
  finish-IsBounded ((l, n), true) h = h
  finish-IsBounded ((l, n), false) h = slist_pack-IsBounded opts l h

  abbrev BoundedIn : Option (SList A × Option ℕ) → Type 0
  BoundedIn none = Unit
  BoundedIn (some r) = IsBounded r.0

  range-IsBounded :
      (allowed : A → Bool) (l l' : SList A) (range : Bytes) (result : Option ℕ)
      → IsBounded l
      → slist_delete_range opts allowed l range ≡ some (l', result)
      → IsBounded l'
  unfolding slist_delete_range
  range-IsBounded allowed l l' range result h e =
      elim (Option-cases (clear_loop opts allowed (suc (length range)) range (l, 0))) [
        | inl out ↦ cc
        | inr (r, at) ↦ subst BoundedIn (ap (finish_all opts) (sym at) ∙ e) (
            finish-IsBounded r
              (loop-IsBounded opts allowed (suc (length range)) range (l, 0) r h at))
      ]

  Step-IsBounded : (l l' : SList A) → Step opts l l' → IsBounded l → IsBounded l'
  Step-IsBounded _ _ (add l x) h = slist_add-IsBounded opts l x h
  Step-IsBounded _ _ (delete l i) h = slist_delete-IsBounded opts l i h
  Step-IsBounded _ _ (remove l x) h =
      unfold slist_remove in remove_found-IsBounded opts l (slist_indexof opts l x) h
  Step-IsBounded _ _ (pack l) h = slist_pack-IsBounded opts l h
  Step-IsBounded _ _ (setcapacity l c small) h = slist_setcapacity-IsBounded opts l c h small
  Step-IsBounded _ _ (clear l mustfree) h = unfold slist_clear in (omega arith, h.1, omega arith)
  Step-IsBounded _ _ (delete_range l l' allowed range result e) h =
      range-IsBounded allowed l l' range result h e

  -- A list that additions, deletions, removals, packings, clearings, deletions of ranges and capacities from 0 to
  -- 32767 that are set make of an empty one, in any order, has at most as many entries as its capacity is, which is
  -- at most 32767, so that an `int16` holds both and every entry has its cell.
  pub Reached-IsBounded : (l : SList A) → Reached opts l → IsBounded l
  Reached-IsBounded _ start = unfold slist_init in (omega arith, refl, omega arith)
  Reached-IsBounded _ (next l l' r s) = Step-IsBounded l l' s (Reached-IsBounded l r)
