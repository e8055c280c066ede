-- ===== src/Text/Number/Refusals.antt =====
-- misc.c: `process_numlist` with a callback that asks it to stop. The test behind the inner loop reads
-- the outer `res`, which stays 0.
use k9_chatnet.Common.{
  ℕ, zero, suc, ◌+◌, ◌-◌, ◌≤◌, ◌<◌, ◌≡◌, refl, sym, ◌∙◌, ap, true, false, List, [], ◌∷◌, ◌++◌,
  Bytes, some, arith, length, append-nil, All,
}
use k9_chatnet.Common.Int.{pos, ltb_ℤ}
use k9_chatnet.Text.Number.Lists.{
  Item, first, last, IsItem, item_text, list_text, EndsItem, parse_item-text, behind,
  length-list_text,
}
use k9_chatnet.Text.Number.{
  skip_to, parse_item, Callback, Progress, call, walk, after_walk, run_item, next_item, list_loop,
  process_numlist,
}

abbrev IsRange : Item → Type 0
IsRange i = IsItem i × (first i ≤ last i)

module _ {S : Type 0} (callback : Callback S) where
  -- The callback is called for the first number of each item.
  abbrev pub call_firsts : Progress S → List Item → Progress S
  call_firsts p [] = p
  call_firsts p (i ∷ is) = call_firsts (call callback p (first i)).0 is

  walk-refused :
      ((s : S) (i : ℕ) → ltb_ℤ (callback s i).1 (pos 0) ≡ true)
      → (r i : ℕ) (p : Progress S) → 0 < r
      → walk callback r i p ≡ ((call callback p i).0, false)
  unfolding walk
  walk-refused h zero i p pos' = elim pos' [ ]
  walk-refused h (suc r) i p pos' = rw (h p.state i)

  after_walk-behind :
      (t : Bytes) (p : Progress S) → EndsItem t → after_walk callback t (p, false) ≡ (p, behind t)
  unfolding after_walk skip_to
  after_walk-behind [] p h = refl
  after_walk-behind (c ∷ t) p h = rw h

  run_item-refused :
      ((s : S) (i : ℕ) → ltb_ℤ (callback s i).1 (pos 0) ≡ true)
      → (i : Item) (s : Bytes) (p : Progress S) → IsRange i
      → EndsItem s
      → run_item callback (parse_item (item_text i ++ s)) p
        ≡ ((call callback p (first i)).0, behind s)
  unfolding run_item
  run_item-refused h i s p (hi, up) hs =
      ap (λ r. run_item callback r p) (parse_item-text i s hi hs)
      ∙ ap (after_walk callback s) (walk-refused h (last i + 1 - first i) (first i) p (omega arith))
      ∙ after_walk-behind s (call callback p (first i)).0 hs

  list_loop-refused :
      ((s : S) (i : ℕ) → ltb_ℤ (callback s i).1 (pos 0) ≡ true)
      → (fuel : ℕ) (i : Item) (is : List Item) (p : Progress S) → length is < fuel
      → All IsRange (i ∷ is)
      → list_loop callback fuel (list_text i is) p ≡ some (call_firsts p (i ∷ is))
  unfolding list_loop
  list_loop-refused h zero i is p f v = elim f [ ]
  list_loop-refused h (suc fuel) i [] p f v =
      ap (λ t. next_item callback (list_loop callback fuel) (run_item callback (parse_item t) p))
        (sym (append-nil (item_text i)))
      ∙ ap (next_item callback (list_loop callback fuel)) (run_item-refused h i [] p v.0 tt)
  list_loop-refused h (suc fuel) i (j ∷ js) p f v =
      ap (next_item callback (list_loop callback fuel))
        (run_item-refused h i (b',' ∷ list_text j js) p v.0 refl)
      ∙ list_loop-refused h fuel j js (call callback p (first i)).0 (omega arith) v.1

  -- A callback that always returns a negative number is still called once for every item of a list of
  -- numbers and ranges that are not empty, with the item's first number.
  pub process_numlist-refused :
      ((s : S) (i : ℕ) → ltb_ℤ (callback s i).1 (pos 0) ≡ true)
      → (s : S) (i : Item) (is : List Item) → All IsRange (i ∷ is)
      → process_numlist callback s (list_text i is)
        ≡ some (call_firsts (record { state = s; count = 0; retval = pos 0 }) (i ∷ is))
  unfolding process_numlist
  process_numlist-refused h s i is v =
      list_loop-refused h (suc (length (list_text i is))) i is _
        (omega (arith, length-list_text i is)) v
