-- ===== src/Tests/Texts.antt =====
-- misc.c and compat.c at concrete strings.
use k9_chatnet.Common.{ℕ, ◌≡◌, refl, ◌↔◌, true, false, List, [], ◌∷◌, some, arith, codes}
use k9_chatnet.Common.Int.{pos, negsuc}
use k9_chatnet.Text.Case.{stricmp}
use k9_chatnet.Text.Wild.{do_match_wild, match_wild, match_wild_nocase}
use k9_chatnet.Text.Wild.Glob.{Matches}
use k9_chatnet.Text.Wild.Laws.{do_match_wild_iff}
use k9_chatnet.Text.Number.{dotime, process_numlist, Callback, strtol}
use k9_chatnet.Text.Number.Lists.{
  Item, one, range, list_text, all_numbers, visit_all, process_numlist-list_text,
}
use k9_chatnet.Text.Wild.{after_star}
use k9_chatnet.Text.Number.Digits.{value_from}
use k9_chatnet.Text.Number.{skip_spaces}
use k9_chatnet.Text.Number.{in_seconds}
use k9_chatnet.Text.Case.{tolower}
use k9_chatnet.Text.Wild.{take_byte}
use k9_chatnet.Text.Number.{unit_of}
use k9_chatnet.Text.Number.{read_number}
use k9_chatnet.Text.Wild.{skip_one}
use k9_chatnet.Text.Number.{strtol_int}
use k9_chatnet.Text.Number.{read_digits}
use k9_chatnet.Text.Wild.{same_byte}
use k9_chatnet.Common.Int.{to_int}

matches_mask : match_wild_nocase (codes "*.Example.?om") (codes "irc.example.com") ≡ true
unfolding match_wild_nocase do_match_wild after_star take_byte skip_one same_byte tolower
matches_mask = refl

case_counts : match_wild (codes "*.Example.com") (codes "irc.example.com") ≡ false
unfolding match_wild do_match_wild after_star take_byte skip_one same_byte
case_counts = refl

two_days : dotime (codes "2d") ≡ pos 172800
unfolding dotime in_seconds unit_of strtol_int strtol skip_spaces read_number read_digits to_int
two_days = refl

no_time : dotime (codes "2w") ≡ negsuc 0
unfolding dotime in_seconds unit_of strtol_int strtol skip_spaces read_number read_digits to_int
no_time = refl

signed_number : strtol (codes " -42,7") ≡ (negsuc 41, codes ",7")
unfolding strtol skip_spaces read_number read_digits
signed_number = refl

compare_names : stricmp (codes "NickServ") (codes "nickserw") ≡ negsuc 0
unfolding stricmp tolower
compare_names = refl

do_match_wild_iff_example :
    (do_match_wild false (codes "*.Example.?om") (codes "irc.example.com") ≡ true)
    ↔ Matches false (codes "*.Example.?om") (codes "irc.example.com")
do_match_wild_iff_example =
    do_match_wild_iff false (codes "*.Example.?om") (codes "irc.example.com") (omega arith)
      (omega arith)

-- A callback that keeps the numbers, the last in front.
abbrev keep_numbers : Callback (List ℕ)
keep_numbers l n = (n ∷ l, pos 1)

abbrev refuse : Callback (List ℕ)
refuse l n = (n ∷ l, negsuc 0)

abbrev three_to_five : Item
three_to_five = range b'3' [] b'5' []

abbrev eight : Item
eight = one b'8' []

process_numlist-list_text_example :
    process_numlist keep_numbers [] (list_text eight (three_to_five ∷ []))
    ≡ some (
        visit_all keep_numbers
          (record { state = []; count = 0; retval = pos 0 })
          (all_numbers eight (three_to_five ∷ [])))
unfolding value_from
process_numlist-list_text_example =
    process_numlist-list_text keep_numbers (λ s i. refl) [] eight (three_to_five ∷ [])
      (((refl, tt), omega arith), (((refl, tt), omega arith, (refl, tt), omega arith), tt))
      (omega arith)
