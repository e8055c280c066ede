-- ===== src/HostServ/History.antt =====
-- hostserv.c: the virtual hosts after any additions and deletions.
use k9_chatnet.Common.{
  arith, ℕ, zero, suc, ◌<◌, ◌≡◌, refl, sym, ap, ap₂, subst, ◌∙◌, inl, inr, Bool, true, false, List,
  [], ◌∷◌, ◌++◌, Bytes, Option, none, some, drop, length, if◌then◌else◌, Bool-cases,
}
use k9_chatnet.Text.Case.{same_text, same_text_refl}
use k9_chatnet.Text.Order.Named.{first_named, first_named-skip, SortedBy-insert, first_named-insert}
use k9_chatnet.HostServ.{
  HostCore, find_host_core, insert_host_core, delete_host_core, add_host_core, del_host_core,
  host_at, ident_at, get_v_host, get_v_ident,
}
use k9_chatnet.HostServ.Lookup.{found_less}
use k9_chatnet.HostServ.Map.{
  nick_of, Sorted, find_host_core-Stop, insert_at, drop_at, lookup, lookup-missing,
  find_host_core-Hit, delete-Sorted,
}

abbrev pub host_of : Option HostCore → Option Bytes
host_of none = none
host_of (some c) = some c.v_host

abbrev pub ident_of : Option HostCore → Option Bytes
ident_of none = none
ident_of (some c) = c.v_ident

-- The entry behind which the search stops is the one of a search through the whole list.
found_entry :
    (n : Bytes) (cs : List HostCore)
    → Sorted cs
    → (find_host_core n cs).1 ≡ true
    → (c : HostCore) × (rest : List HostCore) × (drop (find_host_core n cs).0 cs ≡ c ∷ rest)
      × (lookup n cs ≡ some c)
unfolding first_named
found_entry n cs s found =
    let r = find_host_core-Hit n cs s found in
    (
      r.entry,
      r.rest,
      ap₂ (λ (i : ℕ) (l : List HostCore). drop i l) r.place r.whole
          ∙ drop_at r.front (r.entry ∷ r.rest),
      ap (lookup n) r.whole
          ∙ first_named-skip nick_of n r.front (r.entry ∷ r.rest) r.lower
          ∙ rw r.same refl,
    )

get_v_host-lookup :
    (n : Bytes) (cs : List HostCore) → Sorted cs → get_v_host n cs ≡ host_of (lookup n cs)
unfolding get_v_host
get_v_host-lookup n cs s = elim (Bool-cases (find_host_core n cs).1) [
  | inr missing ↦ rw missing (ap host_of (sym (lookup-missing n n cs s missing (same_text_refl n))))
  | inl found ↦
      let (c, rest, at, hit) = found_entry n cs s found in
      rw found (ap host_at at ∙ sym (ap host_of hit))
]

get_v_ident-lookup :
    (n : Bytes) (cs : List HostCore) → Sorted cs → get_v_ident n cs ≡ ident_of (lookup n cs)
unfolding get_v_ident
get_v_ident-lookup n cs s = elim (Bool-cases (find_host_core n cs).1) [
  | inr missing ↦
      rw missing (ap ident_of (sym (lookup-missing n n cs s missing (same_text_refl n))))
  | inl found ↦
      let (c, rest, at, hit) = found_entry n cs s found in
      rw found (ap ident_at at ∙ sym (ap ident_of hit))
]

insert-Sorted :
    (c : HostCore) (cs : List HostCore)
    → Sorted cs
    → (find_host_core c.nick cs).1 ≡ false
    → Sorted (insert_host_core c (find_host_core c.nick cs).0 cs)
      × ((m : Bytes)
          → lookup m (insert_host_core c (find_host_core c.nick cs).0 cs)
            ≡ (if same_text m c.nick then some c else lookup m cs))
insert-Sorted c cs s e =
    let r = find_host_core-Stop c.nick cs s in
    let put : insert_host_core c (find_host_core c.nick cs).0 cs ≡ r.front ++ c ∷ r.behind =
      ap₂ (insert_host_core c) r.place r.whole ∙ insert_at c r.front r.behind in
    (
      subst Sorted (sym put) (
          SortedBy-insert nick_of r.front c r.behind (subst Sorted r.whole s) r.lower
            (r.missing e)),
      λ m.
          ap (lookup m) put
          ∙ first_named-insert nick_of m r.front c r.behind r.lower
          ∙ ap (λ (l : List HostCore). if same_text m c.nick then some c else lookup m l)
              (sym r.whole),
    )

if_twice :
    {A : Type 0} (b : Bool) (x y z : A)
    → (if b then x else if b then y else z) ≡ (if b then x else z)
if_twice true x y z = refl
if_twice false x y z = refl

add-Sorted :
    (fuel : ℕ) (c : HostCore) (cs : List HostCore)
    → length cs < fuel
    → Sorted cs
    → Sorted (add_host_core fuel c cs)
      × ((m : Bytes)
          → lookup m (add_host_core fuel c cs)
            ≡ (if same_text m c.nick then some c else lookup m cs))
unfolding add_host_core
add-Sorted zero c cs h s = absurd (omega (arith, h))
add-Sorted (suc fuel) c cs h s = elim (Bool-cases (find_host_core c.nick cs).1) [
  | inr missing ↦ rw missing (insert-Sorted c cs s missing)
  | inl found ↦
      let less = delete_host_core (find_host_core c.nick cs).0 cs in
      let (sorted, map_less) = delete-Sorted c.nick cs s found in
      let (again, map_again) =
        add-Sorted fuel c less (omega (arith, h, found_less c.nick cs found)) sorted in
      rw found (
        again,
        λ m.
            map_again m
            ∙ ap (λ (o : Option HostCore). if same_text m c.nick then some c else o) (map_less m)
            ∙ if_twice (same_text m c.nick) (some c) none (lookup m cs),
      )
]

del-Sorted :
    (n : Bytes) (cs : List HostCore)
    → Sorted cs
    → Sorted (del_host_core n cs)
      × ((m : Bytes)
          → lookup m (del_host_core n cs) ≡ (if same_text m n then none else lookup m cs))
unfolding del_host_core
del-Sorted n cs s = elim (Bool-cases (find_host_core n cs).1) [
  | inl found ↦ rw found (delete-Sorted n cs s found)
  | inr missing ↦ rw missing (
    s,
    λ m. elim (Bool-cases (same_text m n)) [
      | inl same ↦ rw same (lookup-missing n m cs s missing same)
      | inr other ↦ rw other refl
    ],
  )
]

-- What is done to the list.
pub data Command : Type 0 where
  add : HostCore → Command
  del : Bytes → Command

unfoldable pub do_command : Command → List HostCore → List HostCore
do_command (add c) cs = add_host_core (suc (length cs)) c cs
do_command (del n) cs = del_host_core n cs

unfoldable pub do_commands : List Command → List HostCore → List HostCore
do_commands [] cs = cs
do_commands (c ∷ cmds) cs = do_commands cmds (do_command c cs)

-- What a nick has after a command.
abbrev pub meaning : Bytes → Command → Option HostCore → Option HostCore
meaning m (add c) o = if same_text m c.nick then some c else o
meaning m (del n) o = if same_text m n then none else o

unfoldable pub last_meaning : Bytes → List Command → Option HostCore → Option HostCore
last_meaning m [] o = o
last_meaning m (c ∷ cmds) o = last_meaning m cmds (meaning m c o)

do_command-Sorted :
    (c : Command) (cs : List HostCore)
    → Sorted cs
    → Sorted (do_command c cs)
      × ((m : Bytes) → lookup m (do_command c cs) ≡ meaning m c (lookup m cs))
unfolding do_command
do_command-Sorted (add c) cs s = add-Sorted (suc (length cs)) c cs (omega arith) s
do_command-Sorted (del n) cs s = del-Sorted n cs s

-- Additions and deletions keep the list sorted by `stricmp`, without two entries of one nick, and then
-- `getvHost` and `getvIdent` return for every nick the virtual host and the ident of the last addition for it that no deletion
-- came after, and NULL where there is none. Nicks are the same when `stricmp` says so.
pub do_commands-get_v_host :
    (cmds : List Command) (cs : List HostCore)
    → Sorted cs
    → Sorted (do_commands cmds cs)
      × ((m : Bytes)
          → (get_v_host m (do_commands cmds cs) ≡ host_of (last_meaning m cmds (lookup m cs)))
            × (get_v_ident m (do_commands cmds cs) ≡ ident_of (last_meaning m cmds (lookup m cs))))
unfolding do_commands last_meaning
do_commands-get_v_host [] cs s = (s, λ m. (get_v_host-lookup m cs s, get_v_ident-lookup m cs s))
do_commands-get_v_host (c ∷ cmds) cs s =
    let (sorted, one) = do_command-Sorted c cs s in
    let (after, rest) = do_commands-get_v_host cmds (do_command c cs) sorted in
    (
      after,
      λ m. (
        (rest m).0 ∙ ap (λ o. host_of (last_meaning m cmds o)) (one m),
        (rest m).1 ∙ ap (λ o. ident_of (last_meaning m cmds o)) (one m),
      ),
    )
