-- ===== src/Session/Commands.antt =====
-- sessions.c: the commands of `do_exception` on the list of exceptions.
pub mod Unique
pub mod Moving
pub mod Reported
pub mod Deleting
pub mod Positions
use k9_chatnet.Common.{
  ℕ, zero, suc, ◌+◌, ◌-◌, Bool, true, false, not, ◌&&◌, List, [], ◌∷◌, ◌++◌, Bytes, Option, none,
  some, take, drop, length, get_elem?, ltb, ◌==◌, if◌then◌else◌,
}
use k9_chatnet.Common.Int.{ℤ, pos}
use k9_chatnet.Text.Case.{same_text}
use k9_chatnet.Text.Number.{Callback, process_numlist, Progress}
use k9_chatnet.Session.Types.{Exception}
use k9_chatnet.Session.Exceptions.{exception_del}

-- `for (i = 0; i < nexceptions; i++) exceptions[i].num = i;`
unfoldable pub renumber : ℕ → List Exception → List Exception
renumber i [] = []
renumber i (e ∷ es) = record e { num = i } ∷ renumber (suc i) es

-- The index of the first exception whose number is `n`, counted from `i`.
unfoldable pub index_of_num : ℕ → ℕ → List Exception → Option ℕ
index_of_num n i [] = none
index_of_num n i (e ∷ es) = if n == e.num then some i else index_of_num n (suc i) es

-- The state that the callback keeps: the exceptions, and the number of its last call.
pub record Deletion : Type 0 where
  pub exceptions : List Exception
  pub last : Option ℕ

abbrev pub as_int : List Exception × Bool → List Exception × ℤ
as_int (es, true) = (es, pos 1)
as_int (es, false) = (es, pos 0)

abbrev pub delete_found : List Exception → Option ℕ → List Exception × ℤ
delete_found es none = (es, pos 0)
delete_found es (some i) = as_int (exception_del i es)

-- A position of 0 is looked for as -1, which no exception has.
abbrev pub find_position : ℕ → List Exception → Option ℕ
find_position zero es = none
find_position (suc n) es = index_of_num n 0 es

unfoldable pub exception_del_callback : Callback Deletion
exception_del_callback d num =
    let (es, res) = delete_found d.exceptions (find_position num d.exceptions) in
    (record { exceptions = es; last = some num }, res)

-- DEL with a list of positions: the deletion, then the new numbers, with the number of the deleted
-- ones and of the calls.
abbrev pub renumbered : Progress Deletion → List Exception × ℤ × ℕ
renumbered p = (renumber 0 p.state.exceptions, p.retval, p.count)

unfoldable pub delete_positions : Bytes → List Exception → Option (List Exception × ℤ × ℕ)
delete_positions mask es =
    elim (process_numlist exception_del_callback (record { exceptions = es; last = none }) mask) [
      | none ↦ none
      | some p ↦ some (renumbered p)
    ]

-- The index of the first exception with the mask.
unfoldable pub index_of_mask : Bytes → ℕ → List Exception → Option ℕ
index_of_mask mask i [] = none
index_of_mask mask i (e ∷ es) =
    if same_text mask e.mask then some i else index_of_mask mask (suc i) es

-- DEL with a mask; 1 if there was an exception with it.
unfoldable pub delete_mask : Bytes → List Exception → List Exception × Bool
delete_mask mask es = elim (index_of_mask mask 0 es) [
  | none ↦ (renumber 0 es, false)
  | some i ↦ (renumber 0 (exception_del i es).0, true)
]

-- The shift of MOVE: the entry `e` of index `n1` is taken out and put at index `n2`. The blocks are
-- those that the two `memmove`s copy.
unfoldable pub shift : ℕ → ℕ → Exception → List Exception → List Exception
shift n1 n2 e es =
    if ltb n1 n2
    then take n1 es ++ (take (n2 - n1) (drop (suc n1) es) ++ e ∷ drop (suc n2) es)
    else take n2 es ++ e ∷ (take (n1 - n2) (drop n2 es) ++ drop (suc n1) es)

-- The mask in the notice of MOVE is read at index `n1` after the shift.
abbrev pub mask_at : ℕ → List Exception → Bytes
mask_at i es = elim (get_elem? es i) [ none ↦ [] | some e ↦ e.mask ]

pub record Moved : Type 0 where
  pub exceptions : List Exception
  pub reported : Bytes

abbrev pub moved : ℕ → List Exception → Moved
moved n1 es = record { exceptions = renumber 0 es; reported = mask_at n1 es }

unfoldable pub move_within : ℕ → ℕ → List Exception → Option Moved
move_within n1 n2 es =
    if ltb n1 (length es) && ltb n2 (length es) && not (n1 == n2)
    then elim (get_elem? es n1) [ none ↦ none | some e ↦ some (moved n1 (shift n1 n2 e es)) ]
    else none

-- MOVE with the two positions, each less 1; none is the syntax error.
unfoldable pub move : ℤ → ℤ → List Exception → Option Moved
move (pos n1) (pos n2) es = move_within n1 n2 es
move _ _ es = none
