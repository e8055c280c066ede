-- ===== src/NickServ/Login.antt =====
-- nickserv.c and users.c: who is identified for a nick. A pointer to a user, a nick's record or its group is a
-- number; NULL is 0 for a group. Of a record's status the flags below are modelled; what the users are
-- told, the timeouts, and the nicks that are registered or dropped meanwhile are left out.
pub mod Flags
pub mod Earned
pub mod Vouched
pub mod Steps
pub mod Moves
pub mod Safe
use k9_chatnet.Common.{
  ℕ, Bool, true, false, ◌&&◌, ◌||◌, not, List, Bytes, Option, none, some, ◌==◌, if◌then◌else◌,
}
use k9_chatnet.Common.Int.{ℤ, pos, negsuc}
use k9_chatnet.Text.Case.{same_text}
use k9_chatnet.User.{User}
use k9_chatnet.User.Table.{put}
use k9_chatnet.NickServ.Access.{is_on_access}

pub record Status : Type 0 where
  pub is_verboten : Bool
  pub is_identified : Bool
  pub is_recognized : Bool
  pub is_on_list : Bool
  pub is_kill_held : Bool
  pub is_guested : Bool

pub record Core : Type 0 where
  pub pass : Bytes
  pub access : List Bytes
  pub is_secure : Bool
  pub is_kill_protected : Bool
  pub is_kill_immed : Bool

-- The status of each nick's record, and each user's nick and the nick's record, if it is registered.
pub record Net : Type 0 where
  pub status : ℕ → Status
  pub nick : ℕ → Bytes
  pub na : ℕ → Option ℕ

-- `NS_TEMPORARY`
abbrev pub clear_temporary : Status → Status
clear_temporary s = record s {
  is_identified = false;
  is_recognized = false;
  is_on_list = false;
  is_kill_held = false;
  is_guested = false;
}

unfoldable pub cancelled : Status → Status
cancelled s =
    if s.is_guested then record (clear_temporary s) { is_kill_held = true } else clear_temporary s

abbrev pub with_status : ℕ → (Status → Status) → Net → Net
with_status a f net = record net { status = put net.status a (f (net.status a)) }

abbrev pub on_alias : Option ℕ → (ℕ → Net → Net) → Net → Net
on_alias none f net = net
on_alias (some a) f net = f a net

unfoldable pub cancel_user : ℕ → Net → Net
cancel_user u net = on_alias (net.na u) (λ a. with_status a cancelled) net

-- `collide`, in the builds that change the nick.
abbrev pub collide : Status → Status
collide s = record s { is_guested = true }

unfoldable pub validated : Core → Bool → Status → Status
validated nc on_access s =
    let listed = if on_access then record s { is_on_list = true } else s in
    if s.is_verboten
    then collide s
    else if not nc.is_secure && on_access
    then record listed { is_recognized = true }
    else if nc.is_kill_protected && not on_access && nc.is_kill_immed
    then collide listed
    else listed

abbrev pub or_status : Bool → Bool → Status → Status
or_status identified recognized s = record s {
  is_identified = s.is_identified || identified;
  is_recognized = s.is_recognized || recognized;
}

abbrev pub log_out : Status → Status
log_out s = record s { is_identified = false; is_recognized = false }

-- The users' addresses, the groups and which nick is of which, the records of nicks, and `check_password` of
-- encrypt.c, in whichever build.
module _ (person : ℕ → User) (core : ℕ → Core) (nc_of : ℕ → ℕ) (findnick : Bytes → Option ℕ)
    (check_password : Bytes → Bytes → ℤ) where
  unfoldable pub validate_user : ℕ → Net → Net
  validate_user u net =
      on_alias (net.na u)
        (λ a.
          let nc = core (nc_of a) in
          with_status a (validated nc (is_on_access (person u) nc.access)))
        net

  abbrev pub nc_at : Option ℕ → ℕ
  nc_at none = 0
  nc_at (some a) = nc_of a

  abbrev pub identified_at : Net → Option ℕ → Bool
  identified_at net none = false
  identified_at net (some a) = (net.status a).is_identified

  abbrev pub recognized_at : Net → Option ℕ → Bool
  recognized_at net none = false
  recognized_at net (some a) = (net.status a).is_recognized

  -- The end of `do_nick`: a user who is not recognized, or whose group has changed, is validated.
  abbrev pub revalidate : Bool → ℕ → Net → Net
  revalidate nc_changed u net =
      let recognized = identified_at net (net.na u) || recognized_at net (net.na u) in
      let valid = validate_user u net in if nc_changed || not recognized then valid else net

  -- `change_user_nick` to a nick that differs.
  abbrev pub rename : ℕ → Bytes → Net → Net
  rename u nick net = record net { nick = put net.nick u nick; na = put net.na u (findnick nick) }

  -- A new user; `is_same` is `svid == ts`.
  unfoldable pub do_nick_new : ℕ → Bytes → Bool → Net → Net
  do_nick_new u nick is_same net =
      let new = rename u nick net in
      let known = on_alias (new.na u) (λ a. with_status a (or_status true false)) new in
      let unknown = revalidate true u new in
      elim (findnick nick) [
        | none ↦ unknown
        | some a ↦ if is_same then revalidate false u known else unknown
      ]

  -- A user who changes his nick; `is_sqlined` is the answer of `check_sqline`.
  abbrev pub transfer : Option ℕ → Net → ℕ → Net → Net
  transfer old before u net =
      if nc_at old == nc_at (net.na u)
      then on_alias (net.na u)
          (λ a. with_status a (or_status (identified_at before old) (recognized_at before old))) net
      else net

  unfoldable pub do_nick_change : ℕ → Bytes → Bool → Net → Net
  do_nick_change u nick is_sqlined net =
      let cased = record net { nick = put net.nick u nick } in
      let changed = transfer (net.na u) net u (rename u nick (cancel_user u net)) in
      let nc_changed = not (nc_at (net.na u) == nc_at (changed.na u)) in
      if same_text nick (net.nick u)
      then (if is_sqlined then cased else revalidate false u cased)
      else if is_sqlined
      then changed
      else revalidate nc_changed u changed

  abbrev pub accepts : Bytes → ℕ → Bool
  accepts pass nc = elim (check_password pass (core nc).pass) [
    | pos n ↦ not (n == 0)
    | negsuc n ↦ not (n == 0)
  ]

  -- -1 is an error of `check_password`.
  unfoldable pub do_identify : ℕ → Bytes → Net → Net
  do_identify u pass net =
      on_alias (net.na u)
        (λ a n.
          if (n.status a).is_verboten
          then n
          else if not (accepts pass (nc_of a))
          then n
          else if (n.status a).is_identified
          then n
          else with_status a (or_status true false) n)
        net

  -- LOGOUT of the user himself.
  unfoldable pub do_logout : ℕ → Net → Net
  do_logout u net =
      on_alias (net.na u)
        (λ a n.
          if (n.status a).is_verboten || not (n.status a).is_identified
          then n
          else with_status a log_out n)
        net

  -- LOGOUT of another user by a services administrator, with or without REVALIDATE; `is_admin` says whether that user is one.
  unfoldable pub do_logout_other : ℕ → Bool → Bool → Net → Net
  do_logout_other u is_admin is_revalidate net =
      on_alias (net.na u)
        (λ a n.
          if (n.status a).is_verboten || is_admin
          then n
          else if is_revalidate
          then validate_user u (cancel_user u n)
          else with_status a log_out n)
        net

  -- What `delete_user` does to the nick's record.
  unfoldable pub delete_user : ℕ → Net → Net
  delete_user u net = record (cancel_user u net) { na = put net.na u none }
