-- ===== src/ChanServ/Access/Change.antt =====
-- chanserv.c `do_adduser`, `do_moduser` and `do_remuser`. The words behind the command are arguments, and so
-- are the answers of NickServ and OperServ.
pub mod Entries
pub mod Steps
pub mod Authority
use k9_chatnet.Common.{
  ℕ, zero, suc, ◌+◌, ◌-◌, ◌%◌, ◌^◌, Bool, true, false, ◌&&◌, ◌||◌, not, List, [], ◌∷◌, ◌++◌, Bytes,
  Option, none, some, ◌==◌, ltb, leb, if◌then◌else◌, length, get_elem?, peek,
}
use k9_chatnet.Common.Int.{ℤ, pos, negsuc, ltb_ℤ, leb_ℤ}
use k9_chatnet.Text.Number.{strtol_int, is_digit, is_item_byte, Callback, Progress, process_numlist}
use k9_chatnet.ChanServ.Access.{
  ChanAccess, ChannelInfo, NickAlias, User, access_founder, access_invalid, eq_ℤ, is_core,
  get_access, check_access,
}

-- What the user is told. `refused` stands for a command that ends without a word.
pub data Reply : Type 0 where
  forbidden : Reply
  access_denied : Reply
  disabled : Reply
  refused : Reply
  level_nonzero : Reply
  level_range : Reply
  nicks_only : Reply
  nick_forbidden : Reply
  permission_denied : Reply
  already_added : Reply
  reached_limit : Reply
  added : Reply
  unchanged : Reply
  changed : Reply
  not_already_added : Reply
  list_empty : Reply
  not_found : Reply
  deleted : Reply
  no_such_entry : Option ℕ → Reply
  no_match : Reply
  deleted_one : Reply
  deleted_several : ℤ → Reply

-- What the commands take from elsewhere: `find` is NickServ's `findnick`, `max` is CSAccessMax, `fresh` is what
-- `srealloc` leaves in a new entry.
pub record Setting : Type 0 where
  pub is_servadmin : Bool
  pub readonly : Bool
  pub find : Bytes → Option NickAlias
  pub max : ℕ
  pub now : ℕ
  pub fresh : ChanAccess

-- An `int` that is stored into a `short` keeps its low 16 bits.
unfoldable pub to_short : ℤ → ℤ
to_short (pos n) =
    if ltb (n % 2 ^ 16) (2 ^ 15) then pos (n % 2 ^ 16) else negsuc (2 ^ 16 - 1 - n % 2 ^ 16)
to_short (negsuc n) =
    if ltb (n % 2 ^ 16) (2 ^ 15) then negsuc (n % 2 ^ 16) else pos (2 ^ 16 - 1 - n % 2 ^ 16)

-- The replies of a command, in order, and the channel behind it.
pub record Outcome : Type 0 where
  pub replies : List Reply
  pub ci : ChannelInfo

abbrev pub tell : Reply → ChannelInfo → Outcome
tell r ci = record { replies = r ∷ []; ci = ci }

-- An entry of the group, in use or not.
unfoldable pub entry_of : ℕ → List ChanAccess → Option ChanAccess
entry_of nc [] = none
entry_of nc (a ∷ es) = if is_core a.nc nc then some a else entry_of nc es

abbrev pub cons_to : ChanAccess → Option (List ChanAccess) → Option (List ChanAccess)
cons_to a none = none
cons_to a (some l) = some (a ∷ l)

-- The entry is put where the first one is not in use, if there is one.
unfoldable pub put_free : ChanAccess → List ChanAccess → Option (List ChanAccess)
put_free e [] = none
put_free e (a ∷ es) =
    let rest = cons_to a (put_free e es) in if a.in_use then rest else some (e ∷ es)

unfoldable pub has_free : List ChanAccess → Bool
has_free [] = false
has_free (a ∷ es) = if a.in_use then has_free es else true

-- The level of the first entry of the group is set.
unfoldable pub set_level : ℕ → ℤ → List ChanAccess → List ChanAccess
set_level nc level [] = []
set_level nc level (a ∷ es) =
    let rest = set_level nc level es in
    if is_core a.nc nc then record a { level = level } ∷ es else a ∷ rest

-- The first entry of the group is freed.
unfoldable pub free_entry : ℕ → List ChanAccess → List ChanAccess
free_entry nc [] = []
free_entry nc (a ∷ es) =
    let rest = free_entry nc es in
    if is_core a.nc nc then record a { nc = none; in_use = false } ∷ es else a ∷ rest

-- The entry at an index is freed.
unfoldable pub free_place : ℕ → List ChanAccess → List ChanAccess
free_place i [] = []
free_place zero (a ∷ es) = record a { nc = none; in_use = false } ∷ es
free_place (suc i) (a ∷ es) = a ∷ free_place i es

-- `strspn(nick, "1234567890,-") == strlen(nick)`
unfoldable pub all_item_bytes : Bytes → Bool
all_item_bytes [] = true
all_item_bytes (c ∷ s) = is_item_byte c && all_item_bytes s

-- What the callback of `process_numlist` works on: the channel, and `last` and `perm` of `do_remuser`.
pub record Removal : Type 0 where
  pub ci : ChannelInfo
  pub last : Option ℕ
  pub perm : ℕ

module _ (st : Setting) (u : User) where
  -- The notices before the command goes on, and the channel with its last use.
  unfoldable pub first_notices : ChannelInfo → Outcome
  first_notices ci =
      if ci.is_verboten
      then tell forbidden ci
      else let (may, after) = check_access st.now u 11 ci in
        if not may && not st.is_servadmin
        then tell access_denied after
        else record { replies = []; ci = after }

  abbrev pub add_entry : ℕ → ℤ → ChannelInfo → Option (List ChanAccess) → Outcome
  add_entry nc level ci (some es) = tell added (record ci { access = es })
  add_entry nc level ci none =
      if ltb (length ci.access) st.max
      then tell added (record ci {
        access =
            ci.access
            ++ (record { in_use = true; nc = some nc; level = level; last_seen = 0 }) ∷ [];
      })
      else tell reached_limit ci

  abbrev pub add_for : ℕ → ℤ → ℤ → ChannelInfo → Option ChanAccess → Outcome
  add_for nc level ulev ci (some a) =
      if not st.is_servadmin && leb_ℤ ulev a.level
      then tell permission_denied ci
      else tell already_added ci
  add_for nc level ulev ci none =
      add_entry nc level ci
        (put_free (record { in_use = true; nc = some nc; level = level; last_seen = 0 }) ci.access)

  abbrev pub mod_for : ℕ → ℤ → ℤ → ChannelInfo → Option ChanAccess → Outcome
  mod_for nc level ulev ci (some a) =
      if not st.is_servadmin && leb_ℤ ulev a.level
      then tell permission_denied ci
      else if eq_ℤ a.level level
      then tell unchanged ci
      else tell changed (record ci { access = set_level nc level ci.access })
  mod_for nc level ulev ci none =
      if has_free ci.access
      then tell not_already_added ci
      else if ltb (length ci.access) st.max
      then tell not_already_added (record ci { access = ci.access ++ st.fresh ∷ [] })
      else tell reached_limit ci

  -- The tests that `do_adduser` and `do_moduser` have in common; `go` is what follows them.
  abbrev pub with_nick : (ℕ → Outcome) → ChannelInfo → Option NickAlias → Outcome
  with_nick go ci none = tell nicks_only ci
  with_nick go ci (some na) = if na.is_verboten then tell nick_forbidden ci else go na.nc

  unfoldable pub checked :
      (ℕ → ℤ → ℤ → ChannelInfo → Option ChanAccess → Outcome) → ℤ → Bytes → ChannelInfo → Outcome
  checked go level nick ci =
      let ulev = get_access u ci in
      if st.readonly
      then tell disabled ci
      else if not st.is_servadmin && leb_ℤ ulev level
      then tell refused ci
      else if eq_ℤ level (pos 0)
      then tell level_nonzero ci
      else if leb_ℤ level access_invalid || leb_ℤ access_founder level
      then tell level_range ci
      else with_nick (λ (nc : ℕ). go nc level ulev ci (entry_of nc ci.access)) ci (st.find nick)

  -- The command goes on behind a notice.
  abbrev pub behind : Outcome → (ChannelInfo → Outcome) → Outcome
  behind o go = let next = go o.ci in record { replies = o.replies ++ next.replies; ci = next.ci }

  -- For a channel that is registered; for another one the command goes on with a NULL pointer.
  unfoldable pub do_adduser : Bytes → Bytes → ChannelInfo → Outcome
  do_adduser nick s ci =
      behind (first_notices ci) (checked add_for (to_short (strtol_int s).0) nick)

  unfoldable pub do_moduser : Bytes → Bytes → ChannelInfo → Outcome
  do_moduser nick s ci =
      behind (first_notices ci) (checked mod_for (to_short (strtol_int s).0) nick)

  abbrev pub rem_for : ℕ → ChannelInfo → Option ChanAccess → Outcome
  rem_for nc ci none = tell not_found ci
  rem_for nc ci (some a) =
      if not st.is_servadmin && leb_ℤ (get_access u ci) a.level
      then tell refused ci
      else tell deleted (record ci { access = free_entry nc ci.access })

  abbrev pub rem_nick : ChannelInfo → Option NickAlias → Outcome
  rem_nick ci none = tell nicks_only ci
  rem_nick ci (some na) = rem_for na.nc ci (entry_of na.nc ci.access)

  -- `access_del` of the entry at an index, with the level `uacc` of the user.
  abbrev pub access_del : ℤ → Removal → ℕ → ChanAccess → Removal × ℤ
  access_del uacc d i a =
      if not a.in_use
      then (d, pos 0)
      else if not st.is_servadmin && leb_ℤ uacc a.level
      then (record d { perm = d.perm + 1 }, pos 0)
      else (record d { ci = record d.ci { access = free_place i d.ci.access } }, pos 1)

  abbrev pub access_del_at : ℤ → Removal → ℕ → Option ChanAccess → Removal × ℤ
  access_del_at uacc d i none = (d, pos 0)
  access_del_at uacc d i (some a) = access_del uacc (record d { last = some (i + 1) }) i a

  unfoldable pub access_del_callback : ℤ → Callback Removal
  access_del_callback uacc d zero = (d, pos 0)
  access_del_callback uacc d (suc i) = access_del_at uacc d i (get_elem? d.ci.access i)

  abbrev pub removal_reply : Progress Removal → Reply
  removal_reply p =
      if eq_ℤ p.retval (pos 0)
      then (if ltb 0 p.state.perm
          then permission_denied
          else if p.count == 1
          then no_such_entry p.state.last
          else no_match)
      else if eq_ℤ p.retval (pos 1)
      then deleted_one
      else deleted_several p.retval

  -- The loop of `process_numlist` does not run out of fuel.
  abbrev pub after_list : ChannelInfo → Option (Progress Removal) → Outcome
  after_list ci none = tell no_match ci
  after_list ci (some p) = tell (removal_reply p) p.state.ci

  unfoldable pub rem_list : Bytes → ChannelInfo → Outcome
  rem_list nick ci = after_list ci (
      process_numlist (access_del_callback (get_access u ci))
        (record { ci = ci; last = none; perm = 0 }) nick)

  unfoldable pub rem_checked : Bytes → ChannelInfo → Outcome
  rem_checked nick ci =
      if st.readonly
      then tell disabled ci
      else if length ci.access == 0
      then tell list_empty ci
      else if is_digit (peek nick) && all_item_bytes nick
      then rem_list nick ci
      else rem_nick ci (st.find nick)

  -- The word is a nick, or a list of numbers and ranges.
  unfoldable pub do_remuser : Bytes → ChannelInfo → Outcome
  do_remuser nick ci = behind (first_notices ci) (rem_checked nick)

-- A command of a user, with its words.
pub data Command : Type 0 where
  adduser : Bytes → Bytes → Command
  moduser : Bytes → Bytes → Command
  remuser : Bytes → Command

abbrev pub run_command : Setting → User → Command → ChannelInfo → Outcome
run_command st u (adduser nick s) ci = do_adduser st u nick s ci
run_command st u (moduser nick s) ci = do_moduser st u nick s ci
run_command st u (remuser nick) ci = do_remuser st u nick ci
