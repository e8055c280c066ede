-- ===== src/ChanServ/Check.antt =====
-- chanserv.c `check_modes`, with the table `cbmodeinfos` of channels.c in the build for Bahamut.

pub mod Replay
pub mod Given
pub mod Sent
pub mod Cleared
pub mod Agreed
pub mod Meaning
pub mod Enforced
use k9_chatnet.Common.{
  ℕ, zero, suc, ◌+◌, Bool, true, false, ◌&&◌, not, List, [], ◌∷◌, ◌++◌, Bytes, Option, none, some,
  ◌==◌, leb, if◌then◌else◌,
}
use k9_chatnet.Channel.{update}
use k9_chatnet.Channel.Modes.{
  Services, Chan, CbMode, SetValue, no_value, set_key, set_limit, cbmodes, cbmode_in, set_value,
  set_flag, same_bytes,
}
use k9_chatnet.ChanServ.{ModeLock, to_value}

-- The functions `getvalue` and `csgetvalue` of an entry, which are both there or both NULL.
pub data GetValue : Type 0 where
  no_getter : GetValue
  get_key : GetValue
  get_limit : GetValue

pub record CbModeInfo : Type 0 where
  pub letter : ℕ
  pub flag : ℕ
  pub minus_no_arg : Bool
  pub getvalue : GetValue

abbrev plain_info : ℕ → ℕ → CbModeInfo
plain_info c f = record { letter = c; flag = f; minus_no_arg = false; getvalue = no_getter }

unfoldable pub cbmodeinfos : List CbModeInfo
cbmodeinfos =
    plain_info b'c' 10
    ∷ plain_info b'i' 0
    ∷ record { letter = b'k'; flag = 6; minus_no_arg = false; getvalue = get_key }
    ∷ record { letter = b'l'; flag = 7; minus_no_arg = true; getvalue = get_limit }
    ∷ plain_info b'm' 1
    ∷ plain_info b'n' 2
    ∷ plain_info b'p' 3
    ∷ plain_info b'r' 9
    ∷ plain_info b's' 4
    ∷ plain_info b't' 5
    ∷ plain_info b'M' 11
    ∷ plain_info b'O' 15
    ∷ plain_info b'R' 8
    ∷ []

-- The value of a mode on the channel.
unfoldable pub value_on : (ℕ → Bytes) → GetValue → Chan → Option Bytes
value_on print no_getter ch = none
value_on print get_key ch = ch.key
value_on print get_limit ch = to_value print ch.limit

-- Its value in the lock.
unfoldable pub value_in : (ℕ → Bytes) → GetValue → ModeLock → Option Bytes
value_in print no_getter ci = none
value_in print get_key ci = ci.mlock_key
value_in print get_limit ci = to_value print ci.mlock_limit

abbrev pub setter_of : Option CbMode → SetValue
setter_of none = no_value
setter_of (some m) = m.setvalue

-- What is collected in `modebuf`, which starts with a plus, and in `argbuf`, where each argument stands
-- behind a space, and the channel.
pub record Mended : Type 0 where
  pub letters : Bytes
  pub args : List Bytes
  pub chan : Chan

abbrev pub arg_of : Option Bytes → List Bytes
arg_of none = []
arg_of (some v) = v ∷ []

abbrev pub has_getter : GetValue → Bool
has_getter no_getter = false
has_getter get_key = true
has_getter get_limit = true

-- The values are both there and differ.
abbrev pub differ : Option Bytes → Option Bytes → Bool
differ none w = false
differ (some v) none = false
differ (some v) (some w) = not (same_bytes v w)

-- `if (modes)`: one of the 32 flags is set.
unfoldable pub some_flag : ℕ → (ℕ → Bool) → Bool
some_flag zero modes = false
some_flag (suc n) modes = if modes n then true else some_flag n modes

abbrev pub ends_with : ℕ → Bytes → Bool
ends_with c [] = false
ends_with c (d ∷ []) = d == c
ends_with c (d ∷ (e ∷ s)) = ends_with c (e ∷ s)

abbrev pub but_last : Bytes → Bytes
but_last [] = []
but_last (d ∷ []) = []
but_last (d ∷ (e ∷ s)) = d ∷ but_last (e ∷ s)

-- `if (*(end - 1) == '+') end--`
unfoldable pub drop_plus : Mended → Mended
drop_plus k = if ends_with b'+' k.letters then record k { letters = but_last k.letters } else k

module _ (svc : Services) (print : ℕ → Bytes) where
  -- `cbmodes[mode].setvalue(c, value)`
  abbrev pub set_at : ℕ → Option Bytes → Chan → Chan
  set_at c v ch = set_value svc (setter_of (cbmode_in c cbmodes)) v ch

  -- The mode is set, with the value from the lock.
  abbrev pub set_missing : CbModeInfo → ModeLock → Mended → Mended
  set_missing i ci k =
      let ch = set_flag svc true i.flag k.chan in
      if has_getter i.getvalue
      then record {
        letters = k.letters ++ i.letter ∷ [];
        args = k.args ++ arg_of (value_in print i.getvalue ci);
        chan = set_at i.letter (value_in print i.getvalue ci) ch;
      }
      else record { letters = k.letters ++ i.letter ∷ []; args = k.args; chan = ch }

  -- The mode is set already, with another value.
  abbrev pub fix_value : CbModeInfo → ModeLock → Mended → Mended
  fix_value i ci k = record {
    letters = k.letters ++ i.letter ∷ [];
    args = k.args ++ arg_of (value_in print i.getvalue ci);
    chan = set_at i.letter (value_in print i.getvalue ci) k.chan;
  }

  -- The body of the first loop.
  unfoldable pub lock_on : (ℕ → Bool) → ModeLock → CbModeInfo → Mended → Mended
  lock_on modes ci i k =
      if modes i.flag
      then set_missing i ci k
      else if (has_getter i.getvalue && ci.mlock_on i.flag && k.chan.mode i.flag)
          && differ (value_on print i.getvalue k.chan) (value_in print i.getvalue ci)
      then fix_value i ci k
      else k

  unfoldable pub lock_on_all : (ℕ → Bool) → ModeLock → List CbModeInfo → Mended → Mended
  lock_on_all modes ci [] k = k
  lock_on_all modes ci (i ∷ is) k = lock_on_all modes ci is (lock_on modes ci i k)

  abbrev pub arg_off : CbModeInfo → Chan → List Bytes
  arg_off i ch = if i.minus_no_arg then [] else arg_of (value_on print i.getvalue ch)

  abbrev pub clear_set : CbModeInfo → Mended → Mended
  clear_set i k =
      let ch = set_flag svc false i.flag k.chan in
      if has_getter i.getvalue
      then record {
        letters = k.letters ++ i.letter ∷ [];
        args = k.args ++ arg_off i ch;
        chan = set_at i.letter none ch;
      }
      else record { letters = k.letters ++ i.letter ∷ []; args = k.args; chan = ch }

  -- The body of the second loop.
  unfoldable pub lock_off : (ℕ → Bool) → CbModeInfo → Mended → Mended
  lock_off modes i k = if modes i.flag then clear_set i k else k

  unfoldable pub lock_off_all : (ℕ → Bool) → List CbModeInfo → Mended → Mended
  lock_off_all modes [] k = k
  lock_off_all modes (i ∷ is) k = lock_off_all modes is (lock_off modes i k)

  unfoldable pub clear_modes : ModeLock → Mended → Mended
  clear_modes ci k =
      let modes = λ (f : ℕ). k.chan.mode f && ci.mlock_off f in
      if some_flag 32 modes
      then lock_off_all modes cbmodeinfos (record k { letters = k.letters ++ b'-' ∷ [] })
      else k

  -- The two loops of `check_modes`.
  unfoldable pub mend : ModeLock → Chan → Mended
  mend ci ch = clear_modes ci (
      drop_plus (
        lock_on_all (λ f. not (ch.mode f) && ci.mlock_on f) ci cbmodeinfos
          (record { letters = b'+' ∷ []; args = []; chan = ch })))

-- The counters of the channel, and the commands MODE that were sent: letters and arguments.
pub record Watched : Type 0 where
  pub chan : Chan
  pub bouncy_modes : Bool
  pub server_modecount : ℕ
  pub chanserv_modecount : ℕ
  pub chanserv_modetime : ℕ
  pub sent : List (Bytes × List Bytes)

-- Nothing is sent where `end == modebuf`.
abbrev pub send_mode : Bytes → List Bytes → Watched → Watched
send_mode [] args w = w
send_mode (c ∷ s) args w = record w { sent = w.sent ++ (c ∷ s, args) ∷ [] }

unfoldable pub count_check : ℕ → Watched → Watched
count_check now w =
    if w.chanserv_modetime == now
    then record w { chanserv_modecount = w.chanserv_modecount + 1 }
    else record w { chanserv_modecount = 1; chanserv_modetime = now }

-- A channel that is not registered only loses the mode r.
unfoldable pub unregistered : Watched → Watched
unregistered w =
    if w.chan.mode 9
    then send_mode (b'-' ∷ b'r' ∷ []) []
        (record w { chan = record w.chan { mode = update w.chan.mode 9 false } })
    else w

module _ (svc : Services) (print : ℕ → Bytes) where
  abbrev pub apply_lock : Option ModeLock → Watched → Watched
  apply_lock none w = unregistered w
  apply_lock (some ci) w =
      let k = mend svc print ci w.chan in send_mode k.letters k.args (record w { chan = k.chan })

  unfoldable pub check_modes : ℕ → Option ModeLock → Watched → Watched
  check_modes now ci w =
      if w.bouncy_modes
      then w
      else if leb 3 w.server_modecount && leb 3 w.chanserv_modecount
      then record w { bouncy_modes = true }
      else apply_lock ci (count_check now w)
