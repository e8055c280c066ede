-- ===== src/Text/Number/Stops.antt =====
-- misc.c: every item of a number list leaves less of the string, so `process_numlist` ends.
use k9_chatnet.Common.{
  ℕ, zero, suc, ◌+◌, ◌-◌, ◌*◌, ◌≤◌, ◌<◌, ◌≢◌, Bool, true, false, [], ◌∷◌, Bytes, Option, none, some,
  arith, length,
}
use k9_chatnet.Common.Int.{ℤ}
use k9_chatnet.Text.Number.{
  tail_of, is_item_byte, is_end_byte, is_comma, skip_spaces, read_digits, read_number, strtol,
  strtol_int, skip_to, after_dash, first_number, parse_item, Callback, Progress, after_walk,
  run_item, next_item, list_loop, process_numlist,
}

skip_spaces-le : (s : Bytes) → length (skip_spaces s) ≤ length s
unfolding skip_spaces
skip_spaces-le [] = omega arith
skip_spaces-le (c ∷ s) = ground (arith, skip_spaces-le s)

read_digits-le : (n : ℕ) (s : Bytes) → length (read_digits n s).1 ≤ length s
unfolding read_digits
read_digits-le n [] = omega arith
read_digits-le n (c ∷ s) = ground (arith, read_digits-le (n * 10 + (c - b'0')) s)

read_number-le :
    (b : Bool) (whole s : Bytes)
    → length s ≤ length whole
    → length (read_number b whole s).1 ≤ length whole
unfolding read_number
read_number-le b whole s h = ground (arith, read_digits-le 0 s)

tail-le : (s : Bytes) → length (tail_of s) ≤ length s
tail-le [] = omega arith
tail-le (c ∷ s) = omega arith

strtol-le : (s : Bytes) → length (strtol s).1 ≤ length s
unfolding strtol
strtol-le s =
    let t = skip_spaces s in
    let less : length (tail_of t) ≤ length s = omega (arith, skip_spaces-le s, tail-le t) in
    ground (
      arith,
      read_number-le true s (tail_of t) less,
      read_number-le false s (tail_of t) less,
      read_number-le false s t (skip_spaces-le s),
    )

strtol_int-le : (s : Bytes) → length (strtol_int s).1 ≤ length s
unfolding strtol_int
strtol_int-le s = strtol-le s

skip_to-le : (stops : ℕ → Bool) (s : Bytes) → length (skip_to stops s) ≤ length s
unfolding skip_to
skip_to-le stops [] = omega arith
skip_to-le stops (c ∷ s) = ground (arith, skip_to-le stops s)

after_dash-le : (n : ℤ) (s : Bytes) → length (after_dash n s).2 ≤ length s
unfolding after_dash
after_dash-le n s = ground (arith, strtol_int-le s, skip_to-le is_item_byte (strtol_int s).1)

first_number-le : (n : ℤ) (s : Bytes) → length (first_number n s).2 ≤ length s
unfolding first_number
first_number-le n s = ground (
  arith,
  after_dash-le n (skip_to is_end_byte (tail_of s)),
  skip_to-le is_end_byte (tail_of s),
  tail-le s,
)

parse_item-le : (s : Bytes) → length (parse_item s).2 ≤ length s
unfolding parse_item
parse_item-le s = omega (
  arith,
  first_number-le (strtol_int s).0 (skip_to is_item_byte (strtol_int s).1),
  skip_to-le is_item_byte (strtol_int s).1,
  strtol_int-le s,
)

module _ {S : Type 0} (callback : Callback S) where
  -- What is left behind an item is shorter.
  abbrev Shorter : ℕ → Progress S × Option Bytes → Type 0
  Shorter n (q, none) = Unit
  Shorter n (q, some t) = length t < n

  after_walk-Shorter :
      (rest : Bytes) (n : ℕ) (w : Progress S × Bool)
      → length rest ≤ n
      → Shorter n (after_walk callback rest w)
  unfolding after_walk
  after_walk-Shorter rest n (q, true) h = tt
  after_walk-Shorter rest n (q, false) h = go (skip_to is_comma rest) (skip_to-le is_comma rest)
    where
      go :
          (t : Bytes)
          → length t ≤ length rest
          → Shorter n (elim t [ [] ↦ (q, none) | c ∷ t' ↦ (q, some t') ])
      go [] l = tt
      go (c ∷ t) l = omega (arith, h)

  next_item-total :
      (again : Bytes → Progress S → Option (Progress S)) (n : ℕ) (r : Progress S × Option Bytes)
      → ((t : Bytes) (q : Progress S) → length t < n → again t q ≢ none)
      → Shorter n r
      → next_item callback again r ≢ none
  next_item-total again n (q, none) h l = λ e. cc
  next_item-total again n (q, some t) h l = h t q l

  list_loop-total :
      (fuel : ℕ) (s : Bytes) (p : Progress S) → length s < fuel → list_loop callback fuel s p ≢ none
  unfolding list_loop
  list_loop-total zero s p h = elim h [ ]
  list_loop-total (suc fuel) s p h =
      next_item-total (list_loop callback fuel) (length s) (run_item callback (parse_item s) p)
        (λ t q l. list_loop-total fuel t q (omega arith))
        (unfold run_item in after_walk-Shorter (parse_item s).2 (length s) _ (parse_item-le s))

  -- The loop over the items ends on every string and with every callback.
  pub process_numlist-total : (s : S) (numstr : Bytes) → process_numlist callback s numstr ≢ none
  unfolding process_numlist
  process_numlist-total s numstr = list_loop-total (suc (length numstr)) numstr _ (omega arith)
