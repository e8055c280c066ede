-- ===== src/Dispatch.antt =====
-- modules.c: the table of the server's messages, to which modules add handlers. A handler is a number; the
-- addresses and the memory of the entries are left out.
pub mod Chains
pub mod Undo
use k9_chatnet.Common.{
  ℕ, Bool, true, false, List, [], ◌∷◌, ◌++◌, Bytes, Option, none, some, ◌==◌, ltb, if◌then◌else◌,
}
use k9_chatnet.Text.Case.{same_text}
use k9_chatnet.User.Table.{hash, put}

pub record Message : Type 0 where
  pub name : Bytes
  pub func : ℕ
  pub mod_name : Option Bytes

-- An entry of the table: the messages of a name, linked by `next`, of which there is at least one.
pub record Entry : Type 0 where
  pub name : Bytes
  pub first : Message
  pub rest : List Message

pub data Status : Type 0 where
  ok : Status
  exists : Status
  params : Status

-- `CMD_HASH` is the hash of the users' table.
abbrev pub MessageTable : Type 0
MessageTable = ℕ → List Entry

-- Where the name is there already: at the head, at the tail, or refused.
abbrev pub add_to : Message → ℕ → Entry → Status × Entry
add_to m pos e =
    if pos == 1
    then (ok, record e { first = m; rest = e.first ∷ e.rest })
    else if pos == 2
    then (ok, record e { rest = e.rest ++ m ∷ [] })
    else (exists, e)

-- The loop of `addMessage`; `strcasecmp` says whether two names are the same but for case.
unfoldable pub add_in : (Bytes → Bytes → Bool) → Message → ℕ → List Entry → Status × List Entry
add_in strcasecmp m pos [] = (ok, record { name = m.name; first = m; rest = [] } ∷ [])
add_in strcasecmp m pos (e ∷ es) =
    let (status, later) = add_in strcasecmp m pos es in
    let (status', changed) = add_to m pos e in
    if strcasecmp m.name e.name then (status', changed ∷ es) else (status, e ∷ later)

unfoldable pub add_message :
    (Bytes → Bytes → Bool) → MessageTable → Message → ℕ → Status × MessageTable
add_message strcasecmp table m pos =
    let i = hash m.name in
    let (status, es) = add_in strcasecmp m pos (table i) in
    if ltb 2 pos then (params, table) else (status, put table i es)

-- The loop of `findMessage`: the messages of the name.
unfoldable pub find_in : Bytes → List Entry → List Message
find_in name [] = []
find_in name (e ∷ es) =
    let later = find_in name es in if same_text name e.name then e.first ∷ e.rest else later

unfoldable pub find_message : MessageTable → Bytes → List Message
find_message table name = find_in name (table (hash name))

abbrev is_module : Bytes → Option Bytes → Bool
is_module owner none = false
is_module owner (some other) = same_text owner other

abbrev pub of_module : Option Bytes → Message → Bool
of_module none m = false
of_module (some owner) m = is_module owner m.mod_name

abbrev keep_message : Message → Option (List Message) → Option (List Message)
keep_message m none = none
keep_message m (some ms) = some (m ∷ ms)

-- The messages of a name without the first one of the module.
unfoldable pub without_module : Option Bytes → List Message → Option (List Message)
without_module owner [] = none
without_module owner (m ∷ ms) =
    let later = without_module owner ms in
    if of_module owner m then some ms else keep_message m later

abbrev pub deleted :
    Entry → List Entry → Bool × List Entry → Option (List Message) → Bool × List Entry
deleted e es (found, later) none = (found, e ∷ later)
deleted e es (found, later) (some []) = (true, es)
deleted e es (found, later) (some (m ∷ ms)) =
    (true, record { name = e.name; first = m; rest = ms } ∷ es)

-- A single message goes, whichever module it is of.
abbrev pub delete_from :
    Option Bytes → Entry → List Entry → Bool × List Entry → List Message → Bool × List Entry
delete_from owner e es later [] = (true, es)
delete_from owner e es later (m ∷ ms) = deleted e es later (without_module owner (e.first ∷ m ∷ ms))

-- The loop of `delMessage`; the result is false for MOD_ERR_NOEXIST. No other entry has the name.
unfoldable pub delete_in :
    (Bytes → Bytes → Bool) → Bytes → Option Bytes → List Entry → Bool × List Entry
delete_in strcasecmp name owner [] = (false, [])
delete_in strcasecmp name owner (e ∷ es) =
    let (found, later) = delete_in strcasecmp name owner es in
    if strcasecmp name e.name
    then delete_from owner e es (found, later) e.rest
    else (found, e ∷ later)

unfoldable pub delete_message :
    (Bytes → Bytes → Bool) → MessageTable → Bytes → Option Bytes → Bool × MessageTable
delete_message strcasecmp table name owner =
    let i = hash name in
    let (found, es) = delete_in strcasecmp name owner (table i) in (found, put table i es)
