-- ===== src/ChanServ.antt =====
-- chanserv.c: the mode lock of a registered channel.
pub mod Check
pub mod Mlock
pub mod Bans
pub mod Kicks
pub mod Access
use k9_chatnet.Common.{
  ℕ, Bool, true, false, ◌&&◌, not, List, [], ◌∷◌, Bytes, Option, none, some, ◌==◌, if◌then◌else◌,
}
use k9_chatnet.Channel.{update}
use k9_chatnet.Channel.Modes.{Services, SetValue, no_value, set_key, set_limit}

-- The fields of `struct chaninfo_` that hold the mode lock: which modes are to be set, which to be
-- clear, the key and the limit, which is 0 if there is none.
pub record ModeLock : Type 0 where
  pub mlock_on : ℕ → Bool
  pub mlock_off : ℕ → Bool
  pub mlock_key : Option Bytes
  pub mlock_limit : ℕ

-- `snprintf` with the format %lu writes a number; nothing is made of no number.
abbrev pub to_value : (ℕ → Bytes) → ℕ → Option Bytes
to_value print n = if n == 0 then none else some (print n)

abbrev pub has_comma : Bytes → Bool
has_comma [] = false
has_comma (c ∷ s) = if c == b',' then true else has_comma s

abbrev pub is_key : Bytes → Bool
is_key [] = true
is_key (c ∷ s) = not (c == b':') && not (has_comma (c ∷ s))

-- Without a value for the key, or without a limit, the mode is not locked any more.
unfoldable pub cs_set_key : Option Bytes → ModeLock → ModeLock
cs_set_key none ci = record ci { mlock_on = update ci.mlock_on 6 false; mlock_key = none }
cs_set_key (some value) ci =
    if is_key value
    then record ci { mlock_key = some value }
    else record ci { mlock_on = update ci.mlock_on 6 false; mlock_key = none }

module _ (svc : Services) where
  abbrev pub to_mlock_limit : Option Bytes → ℕ
  to_mlock_limit none = 0
  to_mlock_limit (some value) = svc.strtoul value

  unfoldable pub cs_set_limit : Option Bytes → ModeLock → ModeLock
  cs_set_limit value ci =
      let limit = to_mlock_limit value in
      if limit == 0
      then record ci { mlock_on = update ci.mlock_on 7 false; mlock_limit = limit }
      else record ci { mlock_limit = limit }

  -- `cbm->cssetvalue(ci, value)`
  unfoldable pub cs_set_value : SetValue → Option Bytes → ModeLock → ModeLock
  cs_set_value no_value value ci = ci
  cs_set_value set_key value ci = cs_set_key value ci
  cs_set_value set_limit value ci = cs_set_limit value ci
