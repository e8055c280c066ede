-- ===== src/ChanServ/Mlock.antt =====
-- chanserv.c `do_set_mlock`. The words of the command, which `strtok` cuts, are a list.
pub mod Entries
pub mod Unlock
pub mod Kept
use k9_chatnet.Common.{
  ℕ, Bool, true, false, ◌&&◌, ◌||◌, not, List, [], ◌∷◌, Bytes, Option, none, some, ◌==◌, leb, ltb,
  if◌then◌else◌,
}
use k9_chatnet.Channel.{update}
use k9_chatnet.Channel.Modes.{
  Services, CbMode, SetValue, no_value, set_key, set_limit, cbmodes, cbmode_in,
}
use k9_chatnet.ChanServ.{ModeLock, cs_set_value}

-- The flag CBM_NO_MLOCK of an entry of `cbmodes`, and CBM_NO_USER_MLOCK.
abbrev pub is_no_mlock : CbMode → Bool
is_no_mlock m = m.letter == b'r'

abbrev pub is_no_user_mlock : CbMode → Bool
is_no_user_mlock m = m.letter == b'O'

-- Where the loop is: the sign, if there was one, the words that are left, and the lock.
pub record Locking : Type 0 where
  pub add : Option Bool
  pub args : List Bytes
  pub ci : ModeLock

abbrev pub first_of : List Bytes → Option Bytes
first_of [] = none
first_of (a ∷ rest) = some a

abbrev pub rest_of : List Bytes → List Bytes
rest_of [] = []
rest_of (a ∷ rest) = rest

abbrev pub has_setter : SetValue → Bool
has_setter no_value = false
has_setter set_key = true
has_setter set_limit = true

-- The lock as the command finds it, before the first letter.
unfoldable pub fresh_lock : ModeLock
fresh_lock = record {
  mlock_on = λ f. f == 9;
  mlock_off = λ f. false;
  mlock_key = none;
  mlock_limit = 0;
}

-- What the command answers.
pub data Answer : Type 0 where
  syntax : Answer
  not_registered : Answer
  denied : Answer
  defcon : Answer
  changed : ModeLock → Answer

module _ (svc : Services) where
  -- A mode behind a plus; its value is the next word, or NULL.
  unfoldable pub lock_set : CbMode → Locking → Locking
  lock_set m k =
      let ci = record k.ci {
        mlock_on = update k.ci.mlock_on m.flag true;
        mlock_off = update k.ci.mlock_off m.flag false;
      } in
      if has_setter m.setvalue
      then record k { args = rest_of k.args; ci = cs_set_value svc m.setvalue (first_of k.args) ci }
      else record k { ci = ci }

  unfoldable pub lock_clear : CbMode → ModeLock → ModeLock
  lock_clear m ci =
      let off = record ci { mlock_off = update ci.mlock_off m.flag true } in
      if ci.mlock_on m.flag
      then cs_set_value svc m.setvalue none
          (record off { mlock_on = update ci.mlock_on m.flag false })
      else off

  abbrev pub lock_sign : Bool → CbMode → Locking → Locking
  lock_sign true m k = lock_set m k
  lock_sign false m k = record k { ci = lock_clear m k.ci }

  -- A letter that is not known, or not allowed, only gets a notice.
  abbrev pub lock_found : Bool → Bool → Option CbMode → Locking → Locking
  lock_found is_oper add none k = k
  lock_found is_oper add (some m) k =
      if is_no_mlock m || (is_no_user_mlock m && not is_oper) then k else lock_sign add m k

  abbrev pub lock_letter : Bool → ℕ → Option Bool → Locking → Locking
  lock_letter is_oper c none k = k
  lock_letter is_oper c (some add) k =
      if ltb c 128 then lock_found is_oper add (cbmode_in c cbmodes) k else k

  -- One letter of the parameter.
  unfoldable pub lock_mode : Bool → ℕ → Locking → Locking
  lock_mode is_oper c k =
      if c == b'+'
      then record k { add = some true }
      else if c == b'-'
      then record k { add = some false }
      else lock_letter is_oper c k.add k

  unfoldable pub lock_modes : Bool → Bytes → Locking → Locking
  lock_modes is_oper [] k = k
  lock_modes is_oper (c ∷ s) k = lock_modes is_oper s (lock_mode is_oper c k)

  abbrev pub set_mlock_with : Bool → Bool → List Bytes → Answer
  set_mlock_with is_defcon is_oper [] = syntax
  set_mlock_with is_defcon is_oper (param ∷ args) =
      if is_defcon
      then defcon
      else changed
          (lock_modes is_oper param (record { add = none; args = args; ci = fresh_lock })).ci

  -- `may` is `check_access` with CA_GUARDM for the user and the channel, `known` is `cs_findchan`.
  unfoldable pub do_set_mlock : (Bytes → Bool) → (Bytes → Bool) → Bool → Bool → List Bytes → Answer
  do_set_mlock known may is_defcon is_oper [] = syntax
  do_set_mlock known may is_defcon is_oper (chan ∷ words) =
      if not (known chan)
      then not_registered
      else if not (may chan)
      then denied
      else set_mlock_with is_defcon is_oper words
