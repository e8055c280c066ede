-- ===== src/HostServ.antt =====
-- hostserv.c: the list of virtual hosts, in the order of the nicks. The entry behind which a function
-- works is the number of entries up to it; NULL is 0.
pub mod Lookup
pub mod Map
pub mod History
use k9_chatnet.Common.{
  ℕ, zero, suc, ◌+◌, Bool, true, false, List, [], ◌∷◌, ◌++◌, Bytes, Option, none, some, take, drop,
  length, if◌then◌else◌,
}
use k9_chatnet.Text.Case.{same_text}
use k9_chatnet.Text.Order.{is_before}

pub record HostCore : Type 0 where
  pub nick : Bytes
  pub v_ident : Option Bytes
  pub v_host : Bytes
  pub creator : Bytes
  pub time : ℕ

unfoldable pub find_host_core : Bytes → List HostCore → ℕ × Bool
find_host_core nick [] = (0, false)
find_host_core nick (c ∷ cs) =
    let (i, found) = find_host_core nick cs in
    if same_text nick c.nick
    then (0, true)
    else if is_before nick c.nick
    then (0, false)
    else (suc i, found)

unfoldable pub insert_host_core : HostCore → ℕ → List HostCore → List HostCore
insert_host_core c zero cs = c ∷ cs
insert_host_core c (suc i) [] = c ∷ []
insert_host_core c (suc i) (d ∷ cs) = d ∷ insert_host_core c i cs

unfoldable pub delete_host_core : ℕ → List HostCore → List HostCore
delete_host_core i [] = []
delete_host_core zero (d ∷ cs) = cs
delete_host_core (suc i) (d ∷ cs) = d ∷ delete_host_core i cs

-- An entry of the nick is deleted, and the function called again, at most `fuel` times.
unfoldable pub add_host_core : ℕ → HostCore → List HostCore → List HostCore
add_host_core zero c cs = cs
add_host_core (suc fuel) c cs =
    let (i, found) = find_host_core c.nick cs in
    let again = add_host_core fuel c (delete_host_core i cs) in
    if found then again else insert_host_core c i cs

abbrev pub host_at : List HostCore → Option Bytes
host_at [] = none
host_at (c ∷ cs) = some c.v_host

unfoldable pub get_v_host : Bytes → List HostCore → Option Bytes
get_v_host nick cs =
    let (i, found) = find_host_core nick cs in if found then host_at (drop i cs) else none

abbrev pub ident_at : List HostCore → Option Bytes
ident_at [] = none
ident_at (c ∷ cs) = c.v_ident

unfoldable pub get_v_ident : Bytes → List HostCore → Option Bytes
get_v_ident nick cs =
    let (i, found) = find_host_core nick cs in if found then ident_at (drop i cs) else none

unfoldable pub del_host_core : Bytes → List HostCore → List HostCore
del_host_core nick cs =
    let (i, found) = find_host_core nick cs in if found then delete_host_core i cs else cs
