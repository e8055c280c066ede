-- ===== src/Text/Number/Time.antt =====
-- misc.c: `dotime` on the time strings that its comment describes.
use k9_chatnet.Common.{
  ℕ, ◌*◌, ◌^◌, ◌<◌, ◌≡◌, ◌∙◌, ap, [], ◌∷◌, ◌++◌, Bytes, Option, none, some, arith, ◌==◌,
  if◌then◌else◌,
}
use k9_chatnet.Common.Int.{ℤ, pos, negsuc, to_int-pos}
use k9_chatnet.Text.Number.Digits.{IsDigits, value, EndsDigits, strtol_int-digits}
use k9_chatnet.Text.Number.{unit_of, in_seconds, dotime}

-- The seconds that a unit letter stands for.
pub seconds_in : ℕ → Option ℕ
seconds_in c =
    if c == b's'
    then some 1
    else if c == b'm'
    then some 60
    else if c == b'h'
    then some 3600
    else if c == b'd'
    then some 86400
    else none

-- What is meant by an amount and what is written behind it.
pub meaning : ℕ → Bytes → ℤ
meaning n [] = pos n
meaning n (c ∷ t) = elim (seconds_in c) [ some k ↦ pos (n * k) | none ↦ negsuc 0 ]

-- On an amount that begins with a digit and that fits an `int` also in seconds, `dotime` returns the
-- amount alone, or times the seconds of the unit letter behind it, or -1 behind another byte.
pub dotime-meaning :
    (d : ℕ) (ds rest : Bytes)
    → IsDigits (d ∷ ds)
    → EndsDigits rest
    → value (d ∷ ds) * 86400 < 2 ^ 31
    → dotime (d ∷ ds ++ rest) ≡ meaning (value (d ∷ ds)) rest
unfolding dotime in_seconds unit_of seconds_in meaning
dotime-meaning d ds [] hd hs h = ap in_seconds (strtol_int-digits d ds [] hd hs (omega arith))
dotime-meaning d ds (c ∷ t) hd hs h =
    let n = value (d ∷ ds) in
    ap in_seconds (strtol_int-digits d ds (c ∷ t) hd hs (omega arith))
    ∙ ground (
      arith,
      to_int-pos (n * 60) (omega arith),
      to_int-pos (n * 3600) (omega arith),
      to_int-pos (n * 86400) (omega arith),
    )
