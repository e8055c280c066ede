-- ===== src/Process/Ignore.antt =====
-- process.c `add_ignore` and `get_ignore`. The array of lists is a function of the index; a list that a
-- write makes share its nodes with another is a copy.
pub mod Kept
use k9_chatnet.Common.{
  ℕ, ◌+◌, Bool, false, List, [], ◌∷◌, ◌++◌, Bytes, Option, none, some, take, ltb, leb, ◌==◌,
  if◌then◌else◌,
}
use k9_chatnet.Common.{peek}
use k9_chatnet.Text.Case.{tolower, same_text}
use k9_chatnet.User.{User, match_usermask}

pub record Ignore : Type 0 where
  pub who : Bytes
  pub time : ℕ

abbrev pub Ignores : Type 0
Ignores = ℕ → List Ignore

-- `*whichlist = list`
abbrev pub put : Ignores → ℕ → List Ignore → Ignores
put t i l k = if k == i then l else t k

-- `strscpy` into NICKMAX bytes
abbrev pub short : Bytes → Bytes
short nick = take 31 nick

abbrev pub index_of : Bytes → ℕ
index_of nick = tolower (peek nick)

abbrev pub prolong : ℕ → ℕ → Ignore → Ignore
prolong now delta e = record e { time = if ltb now e.time then e.time + delta else now + delta }

-- The list with its first entry for `who` prolonged; none if there is no such entry.
unfoldable pub renew : ℕ → ℕ → Bytes → List Ignore → Option (List Ignore)
renew now delta who [] = none
renew now delta who (e ∷ es) =
    let later = renew now delta who es in
    if same_text e.who who
    then some (prolong now delta e ∷ es)
    else elim later [ none ↦ none | some l ↦ some (e ∷ l) ]

abbrev pub renewed_or : Option (List Ignore) → List Ignore → List Ignore
renewed_or none l = l
renewed_or (some r) l = r

unfoldable pub add_ignore : ℕ → Bytes → ℕ → Ignores → Ignores
add_ignore now nick delta t =
    let es = t (index_of nick) in
    put t (index_of nick) (
      renewed_or (renew now delta (short nick) es)
        (record { who = short nick; time = now + delta } ∷ es))

-- An entry that a search stops at, and what stands before and behind it.
pub record Found : Type 0 where
  pub before : List Ignore
  pub entry : Ignore
  pub after : List Ignore

unfoldable pub search_in : (Bytes → Bool) → List Ignore → List Ignore → Option Found
search_in test before [] = none
search_in test before (e ∷ es) =
    let later = search_in test (before ++ e ∷ []) es in
    if test e.who then some (record { before = before; entry = e; after = es }) else later

abbrev pub search : (Bytes → Bool) → List Ignore → Option Found
search test es = search_in test [] es

-- The user with the nick, whom `finduser` returns; without one a mask is not looked at here, where the
-- source reads through NULL.
abbrev pub usermask_test : Option User → Bytes → Bool
usermask_test none who = false
usermask_test (some u) who = match_usermask who u

-- The first search that finds an entry, with the index of its list.
abbrev pub or_search : Option (ℕ × Found) → ℕ → Option Found → Option (ℕ × Found)
or_search (some r) i o = some r
or_search none i none = none
or_search none i (some p) = some (i, p)

unfoldable pub search_all : Ignores → Bytes → Option User → Option (ℕ × Found)
search_all t nick u =
    let own = search (λ who. same_text who nick) (t (index_of nick)) in
    let starred = search (usermask_test u) (t b'*') in
    let queried = search (usermask_test u) (t b'?') in
    or_search (or_search (or_search none (index_of nick) own) b'*' starred) b'?' queried

-- `if (prev) prev->next = ign->next; else *whichlist = ign->next;`: `which` is the index of the nick's
-- own list, `i` that of the list that the entry is in.
unfoldable pub flush : Ignores → ℕ → ℕ → Found → Ignores
flush t which i p = elim p.before [
  | [] ↦ put t which p.after
  | x ∷ l ↦ put t i (p.before ++ p.after)
]

abbrev pub check_time : ℕ → Ignores → ℕ → Option (ℕ × Found) → Ignores × Option Ignore
check_time now t which none = (t, none)
check_time now t which (some (i, p)) =
    if leb p.entry.time now then (flush t which i p, none) else (t, some p.entry)

unfoldable pub get_ignore : ℕ → Ignores → Bytes → Option User → Ignores × Option Ignore
get_ignore now t nick u = check_time now t (index_of nick) (search_all t nick u)
