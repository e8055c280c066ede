-- ===== src/Text/Number.antt =====
-- misc.c `dotime` and `process_numlist`, with the C library's `strtol`, `strcspn` and the character
-- classes that they use. A `long` has 64 bits, an `int` 32.
pub mod Digits
pub mod Time
pub mod Lists
pub mod Kept
pub mod Stops
pub mod Refusals
use k9_chatnet.Common.{
  ℕ, zero, suc, ◌+◌, ◌-◌, ◌*◌, ◌^◌, Bool, true, false, ◌&&◌, ◌||◌, [], ◌∷◌, Bytes, Option, none,
  some, peek, length, min, leb, ◌==◌, if◌then◌else◌,
}
use k9_chatnet.Common.Int.{ℤ, pos, negsuc, ◌+ℤ◌, to_int, ltb_ℤ}

abbrev pub is_digit : ℕ → Bool
is_digit c = leb b'0' c && leb c b'9'

abbrev pub is_space : ℕ → Bool
is_space c = c == 32 || (leb 9 c && leb c 13)

unfoldable pub skip_spaces : Bytes → Bytes
skip_spaces [] = []
skip_spaces (c ∷ s) = if is_space c then skip_spaces s else c ∷ s

-- The value of the digits at the front, behind those that `n` stands for, and the rest.
unfoldable pub read_digits : ℕ → Bytes → ℕ × Bytes
read_digits n [] = (n, [])
read_digits n (c ∷ s) =
    let (m, rest) = read_digits (n * 10 + (c - b'0')) s in
    if is_digit c then (m, rest) else (n, c ∷ s)

-- LONG_MAX and LONG_MIN bound what `strtol` returns.
abbrev pub clamp_pos : ℕ → ℤ
clamp_pos n = pos (min n (2 ^ 63 - 1))

abbrev clamp_neg : ℕ → ℤ
clamp_neg zero = pos 0
clamp_neg (suc n) = negsuc (min n (2 ^ 63 - 1))

abbrev pub tail_of : Bytes → Bytes
tail_of [] = []
tail_of (c ∷ s) = s

-- The number behind the sign; `whole` is what is left where there is no digit.
unfoldable pub read_number : Bool → Bytes → Bytes → ℤ × Bytes
read_number negative whole s =
    let (n, rest) = read_digits 0 s in
    if is_digit (peek s)
    then if negative then (clamp_neg n, rest) else (clamp_pos n, rest)
    else (pos 0, whole)

-- `strtol(s, &s, 10)`
unfoldable pub strtol : Bytes → ℤ × Bytes
strtol whole =
    let s = skip_spaces whole in
    if peek s == b'-'
    then read_number true whole (tail_of s)
    else if peek s == b'+'
    then read_number false whole (tail_of s)
    else read_number false whole s

-- The same, stored into an `int`.
unfoldable pub strtol_int : Bytes → ℤ × Bytes
strtol_int s = let (n, rest) = strtol s in (to_int n, rest)

-- An `int` times a constant, stored into an `int`.
abbrev pub times : ℤ → ℕ → ℤ
times (pos n) k = to_int (pos (n * k))
times (negsuc n) k = to_int (negsuc ((n + 1) * k - 1))

unfoldable pub unit_of : ℤ → ℕ → ℤ
unit_of amount c =
    if c == b's'
    then amount
    else if c == b'm'
    then times amount 60
    else if c == b'h'
    then times amount 3600
    else if c == b'd'
    then times amount 86400
    else negsuc 0

-- The `switch` on the byte behind the amount.
unfoldable pub in_seconds : ℤ × Bytes → ℤ
in_seconds (amount, []) = amount
in_seconds (amount, c ∷ t) = unit_of amount c

unfoldable pub dotime : Bytes → ℤ
dotime s = in_seconds (strtol_int s)

-- `s += strcspn(s, ...)`
unfoldable pub skip_to : (ℕ → Bool) → Bytes → Bytes
skip_to stops [] = []
skip_to stops (c ∷ s) = if stops c then c ∷ s else skip_to stops s

abbrev pub is_item_byte : ℕ → Bool
is_item_byte c = is_digit c || c == b',' || c == b'-'

abbrev pub is_end_byte : ℕ → Bool
is_end_byte c = is_digit c || c == b','

abbrev pub is_comma : ℕ → Bool
is_comma c = c == b','

-- The branch for a dash: a second number, or none before the next comma.
abbrev pub second_number : ℤ → ℤ × Bytes → ℤ × ℤ × Bytes
second_number n1 (n2, s) = (n1, n2, skip_to is_item_byte s)

unfoldable pub after_dash : ℤ → Bytes → ℤ × ℤ × Bytes
after_dash n1 s = if is_digit (peek s) then second_number n1 (strtol_int s) else (n1, n1, s)

-- `n1`, `n2` and the rest of the string.
unfoldable pub first_number : ℤ → Bytes → ℤ × ℤ × Bytes
first_number n1 s =
    if peek s == b'-' then after_dash n1 (skip_to is_end_byte (tail_of s)) else (n1, n1, s)

unfoldable pub parse_item : Bytes → ℤ × ℤ × Bytes
unfolding first_number
parse_item s = let (n1, rest) = strtol_int s in first_number n1 (skip_to is_item_byte rest)

-- The rounds of `for (i = n1; i <= n2 && i >= 0; i++)`.
abbrev pub rounds : ℤ → ℤ → ℕ
rounds (pos a) (pos b) = b + 1 - a
rounds _ _ = 0

-- The callback works on a state of its own and returns an `int`.
abbrev pub Callback : Type 0 → Type 0
Callback S = S → ℕ → S × ℤ

pub record Progress (S : Type 0) : Type 0 where
  pub state : S
  pub count : ℕ
  pub retval : ℤ

abbrev pub nat_part : ℤ → ℕ
nat_part (pos n) = n
nat_part (negsuc n) = 0

module _ {S : Type 0} (callback : Callback S) where
  -- One call of the callback, counted.
  abbrev pub call : Progress S → ℕ → Progress S × ℤ
  call p i = let (s, res) = callback p.state i in (record p { state = s; count = p.count + 1 }, res)

  -- The inner loop from `i` on; `true` when the limit of 32767 calls is reached.
  unfoldable pub walk : ℕ → ℕ → Progress S → Progress S × Bool
  walk zero i p = (p, false)
  walk (suc r) i p =
      let (q, res) = call p i in
      let added : Progress S = record q { retval = q.retval +ℤ res } in
      let further = walk r (i + 1) added in
      if ltb_ℤ res (pos 0) then (q, false) else if leb 32767 q.count then (added, true) else further

  -- One item of the list: the calls for it, whether the limit is reached, and the rest behind the
  -- next comma, if there is one.
  unfoldable pub after_walk : Bytes → Progress S × Bool → Progress S × Option Bytes
  after_walk rest (q, true) = (q, none)
  after_walk rest (q, false) = elim (skip_to is_comma rest) [ [] ↦ (q, none) | c ∷ t ↦ (q, some t) ]

  unfoldable pub run_item : ℤ × ℤ × Bytes → Progress S → Progress S × Option Bytes
  run_item (n1, n2, rest) p = after_walk rest (walk (rounds n1 n2) (nat_part n1) p)

  abbrev pub next_item :
      (Bytes → Progress S → Option (Progress S)) → Progress S × Option Bytes → Option (Progress S)
  next_item again (q, none) = some q
  next_item again (q, some t) = again t q

  -- The outer loop; `none` is the end of the fuel.
  unfoldable pub list_loop : ℕ → Bytes → Progress S → Option (Progress S)
  list_loop zero s p = none
  list_loop (suc fuel) s p = next_item (list_loop fuel) (run_item (parse_item s) p)

  -- The sum of what the callback returned, the count of its calls, and its state.
  unfoldable pub process_numlist : S → Bytes → Option (Progress S)
  process_numlist s numstr =
      list_loop (suc (length numstr)) numstr (record { state = s; count = 0; retval = pos 0 })
