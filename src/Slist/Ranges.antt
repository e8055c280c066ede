-- ===== src/Slist/Ranges.antt =====
-- slist.c: `slist_delete_range` without a callback, on lists of numbers and ranges.
use k9_chatnet.Common.{
  [], ℕ, zero, suc, ◌+◌, ◌-◌, ◌<◌, min, ◌≡◌, refl, sym, ap, ◌∙◌, Bool, true, false, ◌||◌, List, ◌∷◌,
  map, Option, none, some, arith, length, get_elem?, ◌==◌, length-map, append-nil, All,
}
use k9_chatnet.Common.Int.{pos}
use k9_chatnet.Text.Number.{skip_to, parse_item}
use k9_chatnet.Text.Number.Lists.{
  Item, IsItem, first, last, item_text, list_text, length-list_text, parse_item-text,
}
use k9_chatnet.Slist.{
  Opts, SList, Cleared, clear_one, clear_walk, clear_item, clear_loop, run_item, after_item,
  next_round, slist_delete_range, finish_all,
}
use k9_chatnet.Slist.Pack.{present, slist_pack-present}
use k9_chatnet.Slist.Blank.{
  blank, within, unnamed, length-blank, blank-ext, blank-blank, blank_nothing, length-present-some,
  present-unnamed, set_null, set_past, set-blank_at, present_fewer,
}

-- Whether an item names the position of an index, which is one more.
abbrev pub names : Item → ℕ → Bool
names i k = within (first i - 1) (last i) k

abbrev pub any_names : Item → List Item → ℕ → Bool
any_names i [] k = names i k
any_names i (j ∷ js) k = names i k || any_names j js k

module _ {A : Type 0} (opts : Opts A) where
  abbrev pub always : A → Bool
  always x = true

  -- The indices that the test holds of are cleared, and the deletions are counted.
  abbrev Blanked : (ℕ → Bool) → Cleared opts → Cleared opts → Type 0
  Blanked f c d =
      (d.0.entries ≡ blank f 0 c.0.entries)
      × (d.0.capacity ≡ c.0.capacity)
      × (d.0.limit ≡ c.0.limit)
      × (d.1 + length (present d.0.entries) ≡ c.1 + length (present c.0.entries))

  Blanked-trans :
      (f g : ℕ → Bool) (c d e : Cleared opts)
      → Blanked f c d
      → Blanked g d e
      → Blanked (λ k. f k || g k) c e
  Blanked-trans f g c d e (es, cap, lim, n) (es', cap', lim', n') =
      (es' ∙ ap (blank g 0) es ∙ blank-blank g f 0 c.0.entries, cap' ∙ cap, lim' ∙ lim, n' ∙ n)

  Blanked-ext :
      (f g : ℕ → Bool) (c d : Cleared opts)
      → ((k : ℕ) → k < length c.0.entries → f k ≡ g k)
      → Blanked f c d
      → Blanked g c d
  Blanked-ext f g c d h (es, cap, lim, n) =
      (es ∙ blank-ext f g 0 c.0.entries (λ k p q. h k (omega arith)), cap, lim, n)

  -- One round clears one index.
  clear_one-Blanked :
      (i : ℕ) (c : Cleared opts) (o : Option (Option A))
      → get_elem? c.0.entries i ≡ o
      → (clear_one opts always i c o).1 ≡ false
        × Blanked (λ k. k == i) c (clear_one opts always i c o).0
  clear_one-Blanked i c none h =
      (refl, (sym (set_past c.0.entries i h) ∙ set-blank_at c.0.entries i, refl, refl, refl))
  clear_one-Blanked i c (some none) h =
      (refl, (sym (set_null c.0.entries i h) ∙ set-blank_at c.0.entries i, refl, refl, refl))
  clear_one-Blanked i c (some (some x)) h = (
    refl,
    (set-blank_at c.0.entries i, refl, refl, omega (arith, present_fewer c.0.entries i x h)),
  )

  clear_walk-Blanked :
      (r i : ℕ) (c : Cleared opts)
      → (d : Cleared opts) × (clear_walk opts always r i c ≡ (d, false))
        × Blanked (within i (i + r)) c d
  unfolding clear_walk
  clear_walk-Blanked zero i c = (
    c,
    refl,
    (sym (blank_nothing (within i (i + 0)) 0 c.0.entries (λ k p. ground arith)), refl, refl, refl),
  )
  clear_walk-Blanked (suc r) i c =
      let o = get_elem? c.0.entries i in
      let s = (clear_one opts always i c o).0 in
      let (flag, one) = clear_one-Blanked i c o refl in
      let (d, rest, cleared) = clear_walk-Blanked r (suc i) s in
      (
        d,
        ap (next_round opts (clear_walk opts always r (suc i))) (λ k. (s, flag k)) ∙ rest,
        Blanked-ext (λ k. k == i || within (suc i) (suc i + r) k) (within i (i + suc r)) c d
            (λ k p. ground arith)
            (Blanked-trans (λ k. k == i) (within (suc i) (suc i + r)) c s d one cleared),
      )

  -- The walk stops at the end of the list.
  clear_item-Blanked :
      (i : Item) (c : Cleared opts)
      → 0 < first i
      → (d : Cleared opts) × (clear_item opts always (pos (first i)) (pos (last i)) c ≡ (d, false))
        × Blanked (names i) c d
  unfolding clear_item
  clear_item-Blanked i c h = go (first i) refl h
    where
      go :
          (a : ℕ)
          → first i ≡ a
          → 0 < a
          → (d : Cleared opts) × (clear_item opts always (pos a) (pos (last i)) c ≡ (d, false))
            × Blanked (names i) c d
      go zero e h = elim h [ ]
      go (suc a) e h =
          let b = last i in
          let n = length c.0.entries in
          let (d, done, cleared) = clear_walk-Blanked (min b n - a) a c in
          (
            d,
            done,
            Blanked-ext (within a (a + (min b n - a))) (names i) c d (λ k p. ground (arith, e))
                cleared,
          )

  clear_loop-text :
      (fuel : ℕ) (i : Item) (is : List Item) (c : Cleared opts)
      → length is < fuel
      → All IsItem (i ∷ is)
      → All (λ j. 0 < first j) (i ∷ is)
      → (d : Cleared opts) × (clear_loop opts always fuel (list_text i is) c ≡ some (d, false))
        × Blanked (any_names i is) c d
  unfolding clear_loop skip_to
  clear_loop-text zero i is c f v p = elim f [ ]
  clear_loop-text (suc fuel) i [] c f v p =
      let again = clear_loop opts always fuel in
      let (d, done, cleared) = clear_item-Blanked i c p.0 in
      (
        d,
        ap (λ t. run_item opts always again c (parse_item t)) (sym (append-nil (item_text i)))
            ∙ ap (run_item opts always again c) (parse_item-text i [] v.0 tt)
            ∙ ap (λ s. after_item opts again s []) done,
        cleared,
      )
  clear_loop-text (suc fuel) i (j ∷ js) c f v p =
      let again = clear_loop opts always fuel in
      let (d, done, cleared) = clear_item-Blanked i c p.0 in
      let (e, rest, cleared') = clear_loop-text fuel j js d (omega arith) v.1 p.1 in
      (
        e,
        ap (run_item opts always again c) (parse_item-text i (b',' ∷ list_text j js) v.0 refl)
            ∙ ap (λ s. after_item opts again s (b',' ∷ list_text j js)) done
            ∙ rest,
        Blanked-trans (names i) (any_names j js) c d e cleared cleared',
      )

  -- On a list without NULLs whose capacity is its count, and without a callback, a list of numbers and ranges, all below
  -- 2 ^ 31 so that an `int` holds them, of which none begins at 0 deletes exactly the entries at those positions,
  -- whatever their order and repetitions, and also where they go past the end; the others stay in their order, the
  -- capacity is their number, and the number of the deleted ones is returned.
  pub slist_delete_range-unnamed :
      (l : SList A) (xs : List A) (i : Item) (is : List Item)
      → l.entries ≡ map some xs
      → l.capacity ≡ length l.entries
      → All IsItem (i ∷ is)
      → All (λ j. 0 < first j) (i ∷ is)
      → let rest = unnamed (any_names i is) 0 xs in
        (freed : List A) × (slist_delete_range opts always l (list_text i is)
          ≡ some (
            record l { entries = map some rest; capacity = length rest; freed = freed },
            some (length xs - length rest),
          ))
  unfolding slist_delete_range
  slist_delete_range-unnamed l xs i is full fits v p =
      let rest = unnamed (any_names i is) 0 xs in
      let (d, done, (es, cap, lim, n)) =
        clear_loop-text (suc (length (list_text i is))) i is (l, 0)
          (omega (arith, length-list_text i is)) v p in
      let left : present d.0.entries ≡ map some rest =
        ap present (es ∙ ap (blank (any_names i is) 0) full)
        ∙ present-unnamed (any_names i is) 0 xs in
      let len : length (present d.0.entries) ≡ length rest =
        ap length left ∙ length-map rest some in
      let packed =
        slist_pack-present opts d.0
          (cap ∙ fits ∙ sym (ap length es ∙ length-blank (any_names i is) 0 l.entries)) in
      let count : d.1 ≡ length xs - length rest =
        omega (arith, n, len, ap (λ fs. length (present fs)) full, length-present-some xs) in
      (
        d.0.freed,
        ap (finish_all opts) done ∙ (λ k. some (packed k, some (count k))) ∙ (λ k. some (
          record d.0 { entries = left k; capacity = len k; limit = lim k },
          some (length xs - length rest),
        )),
      )
