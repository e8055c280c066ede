-- ===== src/ChanServ/Access.antt =====
-- chanserv.c: who has which access to a registered channel, and the commands that change the access list.
-- A pointer to a `NickCore` is a number.

pub mod Change
pub mod Rights
use k9_chatnet.Common.{
  ℕ, zero, suc, ◌+◌, ◌-◌, ◌%◌, ◌^◌, Bool, true, false, ◌&&◌, ◌||◌, not, List, [], ◌∷◌, ◌++◌, Bytes,
  Option, none, some, ◌==◌, ltb, if◌then◌else◌, length, drop,
}
use k9_chatnet.Common.Int.{ℤ, pos, negsuc, ltb_ℤ, leb_ℤ}

-- `ChanAccess`; the comment and the AUTOOP option are left out. `nc` is NULL where it is not in use.
pub record ChanAccess : Type 0 where
  pub in_use : Bool
  pub nc : Option ℕ
  pub level : ℤ
  pub last_seen : ℕ

-- The fields of `struct chaninfo_` that access depends on; `levels` is what stands in memory from
-- the pointer of that name on.
pub record ChannelInfo : Type 0 where
  pub id : ℕ
  pub founder : Option ℕ
  pub is_secure : Bool
  pub is_secureops : Bool
  pub is_verboten : Bool
  pub levels : ℕ → ℤ
  pub access : List ChanAccess
  pub last_used : ℕ

-- A user's nick: its group and its status.
pub record NickAlias : Type 0 where
  pub nc : ℕ
  pub is_identified : Bool
  pub is_recognized : Bool
  pub is_verboten : Bool

pub record User : Type 0 where
  pub is_super_admin : Bool
  pub na : Option NickAlias
  pub founder_chans : List ℕ

abbrev pub access_founder : ℤ
access_founder = pos 10000

abbrev pub access_invalid : ℤ
access_invalid = negsuc 9999

abbrev pub eq_ℤ : ℤ → ℤ → Bool
eq_ℤ (pos m) (pos n) = m == n
eq_ℤ (pos m) (negsuc n) = false
eq_ℤ (negsuc m) (pos n) = false
eq_ℤ (negsuc m) (negsuc n) = m == n

abbrev pub is_core : Option ℕ → ℕ → Bool
is_core none n = false
is_core (some m) n = m == n

unfoldable pub nick_identified : User → Bool
nick_identified u = elim u.na [ none ↦ false | some na ↦ na.is_identified ]

unfoldable pub nick_recognized : User → Bool
nick_recognized u = elim u.na [ none ↦ false | some na ↦ na.is_identified || na.is_recognized ]

-- Identified, or recognized where the channel is not secure.
abbrev pub is_trusted : User → ChannelInfo → Bool
is_trusted u ci = nick_identified u || (nick_recognized u && not ci.is_secure)

abbrev pub has_core : Option NickAlias → Option ℕ → Bool
has_core none founder = false
has_core (some na) founder = is_core founder na.nc

abbrev pub holds : ℕ → List ℕ → Bool
holds c [] = false
holds c (d ∷ ds) = if d == c then true else holds c ds

unfoldable pub is_identified : User → ChannelInfo → Bool
is_identified u ci = holds ci.id u.founder_chans

unfoldable pub is_real_founder : User → ChannelInfo → Bool
is_real_founder u ci =
    if u.is_super_admin then true else has_core u.na ci.founder && is_trusted u ci

unfoldable pub is_founder : User → ChannelInfo → Bool
is_founder u ci =
    if u.is_super_admin
    then true
    else if has_core u.na ci.founder && is_trusted u ci
    then true
    else is_identified u ci

unfoldable pub get_access_entry : ℕ → List ChanAccess → Option ChanAccess
get_access_entry nc [] = none
get_access_entry nc (a ∷ es) =
    if a.in_use && is_core a.nc nc then some a else get_access_entry nc es

abbrev pub level_of : Option ChanAccess → ℤ
level_of none = pos 0
level_of (some a) = a.level

abbrev pub entry_level : Option NickAlias → List ChanAccess → ℤ
entry_level none es = pos 0
entry_level (some na) es = level_of (get_access_entry na.nc es)

unfoldable pub get_access : User → ChannelInfo → ℤ
get_access u ci =
    if is_founder u ci
    then access_founder
    else if is_trusted u ci
    then entry_level u.na ci.access
    else pos 0

-- The rights whose level is a maximum: CA_AUTODEOP and CA_NOJOIN.
abbrev pub is_maximum : ℕ → Bool
is_maximum what = (what == 5) || (what == 10)

-- The last use of the channel is noted for a user with a level.
unfoldable pub touch : ℕ → ℤ → ChannelInfo → ChannelInfo
touch now level ci = if ltb_ℤ (pos 0) level then record ci { last_used = now } else ci

unfoldable pub is_allowed : ℕ → ℤ → ChannelInfo → Bool
is_allowed what level ci =
    if eq_ℤ level access_founder
    then not (is_maximum what)
    else if (what == 5) && ci.is_secureops && eq_ℤ level (pos 0)
    then true
    else if eq_ℤ (ci.levels what) access_invalid
    then false
    else if is_maximum what
    then leb_ℤ level (ci.levels what)
    else leb_ℤ (ci.levels what) level

unfoldable pub check_access : ℕ → User → ℕ → ChannelInfo → Bool × ChannelInfo
check_access now u what ci =
    let level = get_access u ci in (is_allowed what level ci, touch now level ci)

-- `check_valid_op`, without the command that takes the mode away: `ci` is that of the channel.
unfoldable pub check_valid_op : ℕ → User → Option ChannelInfo → Bool → Bool × Option ChannelInfo
check_valid_op now u none servermode = (true, none)
check_valid_op now u (some ci) servermode =
    if ci.is_verboten
    then (false, some ci)
    else let (may_op, ci1) = check_access now u 4 ci in
      let (must_deop, ci2) = check_access now u 5 (if servermode then ci1 else ci) in
      if servermode && not may_op then (false, some ci1) else (not must_deop, some ci2)
