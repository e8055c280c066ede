-- ===== src/Text/Number/Lists.antt =====
-- misc.c: `process_numlist` on the lists of numbers and ranges that its comment describes.
use k9_chatnet.Common.{
  ℕ, zero, suc, ◌+◌, ◌-◌, ◌^◌, ◌≤◌, ◌<◌, ◌≡◌, refl, sym, ◌∙◌, ap, false, List, [], ◌∷◌, ◌++◌, Bytes,
  Option, none, some, arith, length, length-append, leb, All, append_assoc, append-nil,
}
use k9_chatnet.Common.Int.{ℤ, pos, ltb_ℤ, ◌+ℤ◌}
use k9_chatnet.Text.Number.Digits.{IsDigits, value, EndsDigits, strtol_int-digits}
use k9_chatnet.Text.Number.{
  is_item_byte, skip_to, second_number, after_dash, first_number, parse_item, Callback, Progress,
  call, walk, after_walk, run_item, next_item, list_loop, process_numlist,
}

-- A number, or a range with its two ends, as digits.
pub data Item : Type 0 where
  one : ℕ → Bytes → Item
  range : ℕ → Bytes → ℕ → Bytes → Item

abbrev pub first : Item → ℕ
first (one d ds) = value (d ∷ ds)
first (range d ds e es) = value (d ∷ ds)

abbrev pub last : Item → ℕ
last (one d ds) = value (d ∷ ds)
last (range d ds e es) = value (e ∷ es)

-- The digits are digits, and an `int` holds the numbers.
abbrev pub IsItem : Item → Type 0
IsItem (one d ds) = IsDigits (d ∷ ds) × (value (d ∷ ds) < 2 ^ 31)
IsItem (range d ds e es) =
    IsDigits (d ∷ ds) × (value (d ∷ ds) < 2 ^ 31) × IsDigits (e ∷ es) × (value (e ∷ es) < 2 ^ 31)

abbrev pub item_text : Item → Bytes
item_text (one d ds) = d ∷ ds
item_text (range d ds e es) = d ∷ ds ++ b'-' ∷ e ∷ es

-- The items with commas between them.
abbrev pub list_text : Item → List Item → Bytes
list_text i [] = item_text i
list_text i (j ∷ js) = item_text i ++ b',' ∷ list_text j js

abbrev pub up_from : ℕ → ℕ → List ℕ
up_from i zero = []
up_from i (suc r) = i ∷ up_from (i + 1) r

-- The numbers from the first to the last; none if the last is below the first.
abbrev pub numbers : Item → List ℕ
numbers i = up_from (first i) (last i + 1 - first i)

abbrev pub all_numbers : Item → List Item → List ℕ
all_numbers i [] = numbers i
all_numbers i (j ∷ js) = numbers i ++ all_numbers j js

abbrev pub EndsItem : Bytes → Type 0
EndsItem [] = Unit
EndsItem (c ∷ s) = c ≡ b','

EndsItem-EndsDigits : (s : Bytes) → EndsItem s → EndsDigits s
EndsItem-EndsDigits [] h = refl
EndsItem-EndsDigits (c ∷ s) h = rw h

skip_to-EndsItem : (s : Bytes) → EndsItem s → skip_to is_item_byte s ≡ s
unfolding skip_to
skip_to-EndsItem [] h = refl
skip_to-EndsItem (c ∷ s) h = rw h

first_number-EndsItem : (n : ℤ) (s : Bytes) → EndsItem s → first_number n s ≡ (n, n, s)
unfolding first_number
first_number-EndsItem n [] h = refl
first_number-EndsItem n (c ∷ s) h = rw h

-- What follows the strtol call: the second and third step of an item.
abbrev continue_item : ℤ × Bytes → ℤ × ℤ × Bytes
continue_item (n1, s) = first_number n1 (skip_to is_item_byte s)

first_number-dash :
    (n : ℤ) (e : ℕ) (es s : Bytes)
    → IsDigits (e ∷ es)
    → value (e ∷ es) < 2 ^ 31
    → EndsItem s
    → first_number n (b'-' ∷ e ∷ es ++ s) ≡ (n, pos (value (e ∷ es)), s)
unfolding first_number after_dash skip_to
first_number-dash n e es s hd h hs =
    rw (hd.0, hd.0)
      (ap (second_number n) (strtol_int-digits e es s hd (EndsItem-EndsDigits s hs) h)
        ∙ rw (skip_to-EndsItem s hs))

pub parse_item-text :
    (i : Item) (s : Bytes)
    → IsItem i
    → EndsItem s
    → parse_item (item_text i ++ s) ≡ (pos (first i), pos (last i), s)
unfolding parse_item skip_to
parse_item-text (one d ds) s hi hs =
    ap continue_item (strtol_int-digits d ds s hi.0 (EndsItem-EndsDigits s hs) hi.1)
    ∙ rw (skip_to-EndsItem s hs) (first_number-EndsItem (pos (value (d ∷ ds))) s hs)
parse_item-text (range d ds e es) s (hd, vd, he, ve) hs =
    ap (λ t. parse_item (d ∷ t)) (append_assoc ds (b'-' ∷ e ∷ es) s)
    ∙ ap continue_item (strtol_int-digits d ds (b'-' ∷ e ∷ es ++ s) hd refl vd)
    ∙ first_number-dash (pos (value (d ∷ ds))) e es s he ve hs

length-up_from : (i r : ℕ) → length (up_from i r) ≡ r
length-up_from i zero = refl
length-up_from i (suc r) = ap suc (length-up_from (i + 1) r)

pub length-list_text : (i : Item) (is : List Item) → length is ≤ length (list_text i is)
length-list_text i [] = omega arith
length-list_text i (j ∷ js) =
    omega (arith, length-list_text j js, length-append (item_text i) (b',' ∷ list_text j js))

-- What is left behind an item.
abbrev pub behind : Bytes → Option Bytes
behind [] = none
behind (c ∷ t) = some t

module _ {S : Type 0} (callback : Callback S) where
  -- A call of the callback, with its result added.
  abbrev pub visit : Progress S → ℕ → Progress S
  visit p i = let (q, res) = call callback p i in record q { retval = q.retval +ℤ res }

  abbrev pub visit_all : Progress S → List ℕ → Progress S
  visit_all p [] = p
  visit_all p (i ∷ l) = visit_all (visit p i) l

  visit_all-append :
      (p : Progress S) (l m : List ℕ) → visit_all p (l ++ m) ≡ visit_all (visit_all p l) m
  visit_all-append p [] m = refl
  visit_all-append p (i ∷ l) m = visit_all-append (visit p i) l m

  pub visit_all-count : (p : Progress S) (l : List ℕ) → (visit_all p l).count ≡ p.count + length l
  visit_all-count p [] = omega arith
  visit_all-count p (i ∷ l) = omega (arith, visit_all-count (visit p i) l)

  walk-visit_all :
      ((s : S) (i : ℕ) → ltb_ℤ (callback s i).1 (pos 0) ≡ false)
      → (r i : ℕ) (p : Progress S) → p.count + r < 32767
      → walk callback r i p ≡ (visit_all p (up_from i r), false)
  unfolding walk
  walk-visit_all h zero i p b = refl
  walk-visit_all h (suc r) i p b =
      let more : leb 32767 (p.count + 1) ≡ false = ground arith in
      rw (h p.state i, more) (walk-visit_all h r (i + 1) (visit p i) (omega arith))

  run_item-text :
      ((s : S) (i : ℕ) → ltb_ℤ (callback s i).1 (pos 0) ≡ false)
      → (i : Item) (s : Bytes) (p : Progress S) → IsItem i
      → EndsItem s
      → p.count + length (numbers i) < 32767
      → run_item callback (parse_item (item_text i ++ s)) p ≡ (visit_all p (numbers i), behind s)
  unfolding run_item
  run_item-text h i s p hi hs b =
      ap (λ r. run_item callback r p) (parse_item-text i s hi hs)
      ∙ ap (after_walk callback s) (
          walk-visit_all h (last i + 1 - first i) (first i) p
            (omega (arith, length-up_from (first i) (last i + 1 - first i))))
      ∙ rest s hs
    where
      rest :
          (t : Bytes)
          → EndsItem t
          → after_walk callback t (visit_all p (numbers i), false)
            ≡ (visit_all p (numbers i), behind t)
      rest [] ht = unfold after_walk skip_to in refl
      rest (c ∷ t) ht = unfold after_walk skip_to in rw ht

  list_loop-text :
      ((s : S) (i : ℕ) → ltb_ℤ (callback s i).1 (pos 0) ≡ false)
      → (fuel : ℕ) (i : Item) (is : List Item) (p : Progress S) → length is < fuel
      → All IsItem (i ∷ is)
      → p.count + length (all_numbers i is) < 32767
      → list_loop callback fuel (list_text i is) p ≡ some (visit_all p (all_numbers i is))
  unfolding list_loop
  list_loop-text h zero i is p f v b = elim f [ ]
  list_loop-text h (suc fuel) i [] p f v b =
      ap (λ t. next_item callback (list_loop callback fuel) (run_item callback (parse_item t) p))
        (sym (append-nil (item_text i)))
      ∙ ap (next_item callback (list_loop callback fuel)) (run_item-text h i [] p v.0 tt b)
  list_loop-text h (suc fuel) i (j ∷ js) p f v b =
      let count = length-append (numbers i) (all_numbers j js) in
      ap (next_item callback (list_loop callback fuel))
        (run_item-text h i (b',' ∷ list_text j js) p v.0 refl (omega (arith, count)))
      ∙ list_loop-text h fuel j js (visit_all p (numbers i)) (omega arith) v.1
          (omega (arith, count, visit_all-count p (numbers i)))
      ∙ ap some (sym (visit_all-append p (numbers i) (all_numbers j js)))

  -- For a callback that returns no negative number, a list of numbers and ranges with fewer than
  -- 32767 numbers calls it for each of them in order, and the loop ends with the sum of the results,
  -- the count of the calls and the callback's last state.
  pub process_numlist-list_text :
      ((s : S) (i : ℕ) → ltb_ℤ (callback s i).1 (pos 0) ≡ false)
      → (s : S) (i : Item) (is : List Item) → All IsItem (i ∷ is)
      → length (all_numbers i is) < 32767
      → process_numlist callback s (list_text i is)
        ≡ some (visit_all (record { state = s; count = 0; retval = pos 0 }) (all_numbers i is))
  unfolding process_numlist
  process_numlist-list_text h s i is v b =
      list_loop-text h (suc (length (list_text i is))) i is _ (omega (arith, length-list_text i is))
        v (omega arith)
