-- ===== src/Text/Wild.antt =====
-- misc.c `do_match_wild`, `match_wild` and `match_wild_nocase`.
pub mod Glob
pub mod Laws
pub mod Fold
use k9_chatnet.Common.{ℕ, Bool, true, false, ◌&&◌, [], ◌∷◌, Bytes, ◌==◌, if◌then◌else◌}
use k9_chatnet.Text.Case.{tolower}

-- `docase ? (a == b) : (tolower(a) == tolower(b))`
unfoldable pub same_byte : Bool → ℕ → ℕ → Bool
same_byte true a b = a == b
same_byte false a b = tolower a == tolower b

-- `while (*s)` under `case '*'`: `next` is the recursive call on the rest of the pattern, `q` the
-- byte that the rest begins with.
unfoldable pub scan : Bool → ℕ → (Bytes → Bool) → Bytes → Bool
scan docase q next [] = false
scan docase q next (c ∷ s) =
    let later = scan docase q next s in if same_byte docase c q && next (c ∷ s) then true else later

-- `case '?'`
unfoldable pub skip_one : (Bytes → Bool) → Bytes → Bool
skip_one next [] = false
skip_one next (c ∷ s) = next s

-- `default`: at the end of the string the comparison is with the NUL.
unfoldable pub take_byte : Bool → ℕ → (Bytes → Bool) → Bytes → Bool
take_byte docase c next [] = if same_byte docase 0 c then next [] else false
take_byte docase c next (d ∷ s) = if same_byte docase d c then next s else false

abbrev at_end : Bytes → Bool
at_end [] = true
at_end (c ∷ s) = false

-- `case '*'`: nothing behind it, or a search that falls through to the next round.
unfoldable pub after_star : Bool → Bytes → (Bytes → Bool) → Bytes → Bool
unfolding scan
after_star docase [] next s = true
after_star docase (q ∷ p) next s = if scan docase q next s then true else next s

unfoldable pub do_match_wild : Bool → Bytes → Bytes → Bool
do_match_wild docase [] s = at_end s
do_match_wild docase (c ∷ p) s =
    if c == b'?'
    then skip_one (do_match_wild docase p) s
    else if c == b'*'
    then after_star docase p (do_match_wild docase p) s
    else take_byte docase c (do_match_wild docase p) s

unfoldable pub match_wild : Bytes → Bytes → Bool
match_wild = do_match_wild true

unfoldable pub match_wild_nocase : Bytes → Bytes → Bool
match_wild_nocase = do_match_wild false
