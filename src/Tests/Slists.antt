-- ===== src/Tests/Slists.antt =====
-- slist.c: a list of three numbers, with and without an order.
use k9_chatnet.Common.{
  ℕ, ◌-◌, ◌≡◌, refl, Bool, true, false, List, [], ◌∷◌, map, none, some, Option, arith, length, ◌==◌,
}
use k9_chatnet.Common.Int.{ℤ, pos, sub_ℕ}
use k9_chatnet.Text.Number.Digits.{value_from}
use k9_chatnet.Text.Number.Lists.{Item, range, list_text}
use k9_chatnet.Slist.{Opts, SList, slist_init, slist_add, slist_delete_range}
use k9_chatnet.Slist.Bounds.{IsBounded}
use k9_chatnet.Slist.History.{start, next, add, Reached-IsBounded}
use k9_chatnet.Slist.Order.{IsOrder}
use k9_chatnet.Slist.Ranges.{always, any_names, slist_delete_range-unnamed}
use k9_chatnet.Slist.Blank.{unnamed}

abbrev equal_to : ℕ → Option ℕ → Bool
equal_to n none = false
equal_to n (some m) = n == m

abbrev difference : ℕ → Option ℕ → ℤ
difference n none = pos 0
difference n (some m) = sub_ℕ n m

abbrev plain : Opts ℕ
plain = record { nodup = false; sort = none; isequal = equal_to; frees = true }

abbrev sorting : Opts ℕ
sorting = record { nodup = true; sort = some difference; isequal = equal_to; frees = false }

abbrev numbers : List ℕ
numbers = 2 ∷ 5 ∷ 9 ∷ []

abbrev three : SList ℕ
three = record { entries = map some numbers; capacity = 3; limit = 32767; freed = [] }

abbrev holed : SList ℕ
holed = record {
  entries = some 2 ∷ none ∷ some 9 ∷ none ∷ [];
  capacity = 4;
  limit = 32767;
  freed = [];
}

Reached-IsBounded_example : IsBounded (slist_add plain (slist_init plain) 4).0
Reached-IsBounded_example = Reached-IsBounded plain (slist_add plain (slist_init plain) 4).0 (
    next (slist_init plain) (slist_add plain (slist_init plain) 4).0 start
      (add (slist_init plain) 4))

difference-IsOrder : IsOrder sorting difference
difference-IsOrder = (λ x y z p q. ground arith, λ x y p. ground arith)

-- "2-40,1"
abbrev from_two : Item
from_two = range b'2' [] b'4' (b'0' ∷ [])

slist_delete_range-unnamed_example :
    let rest = unnamed (any_names from_two []) 0 numbers in
    (freed : List ℕ) × (slist_delete_range plain (always plain) three (list_text from_two [])
      ≡ some (
        record three { entries = map some rest; capacity = length rest; freed = freed },
        some (3 - length rest),
      ))
unfolding value_from
slist_delete_range-unnamed_example =
    slist_delete_range-unnamed plain three numbers from_two [] refl refl
      (((refl, tt), omega arith, (refl, (refl, tt)), omega arith), tt) (omega arith, tt)
