-- ===== src/Text/Number/Digits.antt =====
-- misc.c: what `strtol` reads from a run of decimal digits.
use k9_chatnet.Common.{
  ℕ, ◌+◌, ◌-◌, ◌*◌, ◌^◌, ◌<◌, ◌≡◌, refl, ap, true, false, [], ◌∷◌, ◌++◌, Bytes, arith, peek, min,
  ◌==◌, All, min,
}
use k9_chatnet.Common.Int.{pos, to_int-pos}
use k9_chatnet.Text.Number.{
  is_digit, is_space, skip_spaces, read_digits, read_number, strtol, strtol_int,
}

abbrev pub IsDigits : Bytes → Type 0
IsDigits = All (λ c. is_digit c ≡ true)

-- The number that a run of decimal digits stands for, behind the digits of `n`.
unfoldable pub value_from : ℕ → Bytes → ℕ
value_from n [] = n
value_from n (c ∷ s) = value_from (n * 10 + (c - b'0')) s

abbrev pub value : Bytes → ℕ
value = value_from 0

-- The byte behind the digits is none.
abbrev pub EndsDigits : Bytes → Type 0
EndsDigits s = is_digit (peek s) ≡ false

pub read_digits-append :
    (n : ℕ) (ds s : Bytes)
    → IsDigits ds
    → EndsDigits s
    → read_digits n (ds ++ s) ≡ (value_from n ds, s)
unfolding read_digits value_from
read_digits-append n [] [] hd hs = refl
read_digits-append n [] (c ∷ s) hd hs = rw hs
read_digits-append n (d ∷ ds) s hd hs =
    rw (hd.0, read_digits-append (n * 10 + (d - b'0')) ds s hd.1 hs)

-- A digit is no blank and no sign.
digit_only :
    (d : ℕ)
    → is_digit d ≡ true
    → (is_space d ≡ false) × ((d == b'-') ≡ false) × ((d == b'+') ≡ false)
digit_only d h = (ground arith, ground arith, ground arith)

pub strtol-digits :
    (d : ℕ) (ds s : Bytes)
    → IsDigits (d ∷ ds)
    → EndsDigits s
    → strtol (d ∷ ds ++ s) ≡ (pos (min (value (d ∷ ds)) (2 ^ 63 - 1)), s)
unfolding strtol skip_spaces read_number
strtol-digits d ds s hd hs =
    let (space, minus, plus) = digit_only d hd.0 in
    rw (space, minus, plus, hd.0, read_digits-append 0 (d ∷ ds) s hd hs)

-- A run of digits whose number an `int` holds is read as that number, and the rest is left.
pub strtol_int-digits :
    (d : ℕ) (ds s : Bytes)
    → IsDigits (d ∷ ds)
    → EndsDigits s
    → value (d ∷ ds) < 2 ^ 31
    → strtol_int (d ∷ ds ++ s) ≡ (pos (value (d ∷ ds)), s)
unfolding strtol_int
strtol_int-digits d ds s hd hs h =
    let small : min (value (d ∷ ds)) (2 ^ 63 - 1) ≡ value (d ∷ ds) = omega arith in
    rw (strtol-digits d ds s hd hs, small) (ap (λ n. (n, s)) (to_int-pos (value (d ∷ ds)) h))
