-- ===== src/Channel/Modes.antt =====
-- channels.c `chan_set_modes` and what it calls, with the tables of the mode letters in the build for
-- Bahamut. Of a channel, the modes, the key, the limit and the bans are kept, and the lists of users.
pub mod Table
pub mod Kept
pub mod Signs
pub mod Changes
pub mod Bans
use k9_chatnet.Common.{
  ℕ, zero, suc, ◌≡◌, Bool, true, false, not, ◌&&◌, List, [], ◌∷◌, ◌++◌, Bytes, Option, none, some,
  ◌==◌, leb, if◌then◌else◌, drop, take, length,
}
use k9_chatnet.Channel.{Member, Net, update}

-- The functions in the tables.
pub data SetValue : Type 0 where
  no_value : SetValue
  set_key : SetValue
  set_limit : SetValue

pub data UserMode : Type 0 where
  op : UserMode
  voice : UserMode

-- An entry of `cbmodes`, with its letter, which is its index: `flag` is the number of the bit.
pub record CbMode : Type 0 where
  pub letter : ℕ
  pub flag : ℕ
  pub setvalue : SetValue

unfoldable pub cbmodes : List CbMode
cbmodes =
    record { letter = b'M'; flag = 11; setvalue = no_value }
    ∷ record { letter = b'O'; flag = 15; setvalue = no_value }
    ∷ record { letter = b'R'; flag = 8; setvalue = no_value }
    ∷ record { letter = b'c'; flag = 10; setvalue = no_value }
    ∷ record { letter = b'i'; flag = 0; setvalue = no_value }
    ∷ record { letter = b'k'; flag = 6; setvalue = set_key }
    ∷ record { letter = b'l'; flag = 7; setvalue = set_limit }
    ∷ record { letter = b'm'; flag = 1; setvalue = no_value }
    ∷ record { letter = b'n'; flag = 2; setvalue = no_value }
    ∷ record { letter = b'p'; flag = 3; setvalue = no_value }
    ∷ record { letter = b'r'; flag = 9; setvalue = no_value }
    ∷ record { letter = b's'; flag = 4; setvalue = no_value }
    ∷ record { letter = b't'; flag = 5; setvalue = no_value }
    ∷ []

unfoldable pub cbmode_in : ℕ → List CbMode → Option CbMode
cbmode_in c [] = none
cbmode_in c (m ∷ ms) = if m.letter == c then some m else cbmode_in c ms

unfoldable pub cumode : ℕ → Option UserMode
cumode c = if c == b'o' then some op else if c == b'v' then some voice else none

-- `CUF_PROTECT_BOTSERV`
abbrev pub is_protected : UserMode → Bool
is_protected op = true
is_protected voice = false

-- The other parts of the program, as far as the modes ask them: `is_refused` holds of a ban that
-- matches the channel's bot, `stick` is what ChanServ makes of the bans after one is deleted.
-- `strtoul` is the number that is left of the C library's in 32 bits.
pub record Services : Type 0 where
  pub finduser : Bytes → Option ℕ
  pub is_bot : Bytes → Bool
  pub check_valid_op : Net → ℕ → ℕ → Bool → Bool
  pub is_refused : Bytes → Bool
  pub stick : Bytes → List Bytes → List Bytes
  pub strtoul : Bytes → ℕ

pub record Chan : Type 0 where
  pub id : ℕ
  pub mode : ℕ → Bool
  pub key : Option Bytes
  pub limit : ℕ
  pub bans : List Bytes
  pub net : Net

-- Where `chan_set_modes` is: the sign, the arguments behind `av`, and the channel.
pub record Cursor : Type 0 where
  pub add : Bool
  pub args : List Bytes
  pub chan : Chan

abbrev pub with_status : UserMode → Bool → Member → Member
with_status op b m = record m { op = b }
with_status voice b m = record m { voice = b }

-- The loop of `chan_set_user_status` and `chan_remove_user_status`.
unfoldable pub set_status : UserMode → Bool → ℕ → List Member → List Member
set_status um b c [] = []
set_status um b c (m ∷ ms) =
    let rest = set_status um b c ms in if m.chan == c then with_status um b m ∷ ms else m ∷ rest

unfoldable pub chan_set_user_status : UserMode → Bool → ℕ → Chan → Chan
chan_set_user_status um b user ch = record ch {
  net = record ch.net {
    chans = update ch.net.chans user (set_status um b ch.id (ch.net.chans user));
  };
}

abbrev pub status_of : UserMode → Member → Bool
status_of op m = m.op
status_of voice m = m.voice

unfoldable pub has_status : UserMode → ℕ → List Member → Bool
has_status um c [] = false
has_status um c (m ∷ ms) = if m.chan == c then status_of um m else has_status um c ms

unfoldable pub chan_has_user_status : UserMode → ℕ → Chan → Bool
chan_has_user_status um user ch = has_status um ch.id (ch.net.chans user)

abbrev pub same_bytes : Bytes → Bytes → Bool
same_bytes [] [] = true
same_bytes [] (d ∷ t) = false
same_bytes (c ∷ s) [] = false
same_bytes (c ∷ s) (d ∷ t) = (c == d) && same_bytes s t

unfoldable pub remove_ban : Bytes → List Bytes → List Bytes
remove_ban mask [] = []
remove_ban mask (b ∷ bs) =
    let rest = remove_ban mask bs in if same_bytes b mask then bs else b ∷ rest

-- The first of the arguments is taken, if there is one.
abbrev pub with_arg : (Bytes → Chan → Chan) → Cursor → List Bytes → Cursor
with_arg f k [] = k
with_arg f k (a ∷ rest) = record k { args = rest; chan = f a k.chan }

abbrev pub take_arg : (Bytes → Chan → Chan) → Cursor → Cursor
take_arg f k = with_arg f k k.args

module _ (svc : Services) where
  unfoldable pub add_ban : Bytes → Chan → Chan
  add_ban mask ch = if svc.is_refused mask then ch else record ch { bans = ch.bans ++ mask ∷ [] }

  unfoldable pub del_ban : Bytes → Chan → Chan
  del_ban mask ch = record ch { bans = svc.stick mask (remove_ban mask ch.bans) }

  abbrev pub user_mode_of : Bool → Bool → Bool → UserMode → Chan → Option ℕ → Chan
  user_mode_of servermode check add um ch none = ch
  user_mode_of servermode check false um ch (some user) = chan_set_user_status um false user ch
  user_mode_of servermode check true voice ch (some user) = chan_set_user_status voice true user ch
  user_mode_of servermode check true op ch (some user) =
      if check && not (svc.check_valid_op ch.net user ch.id servermode)
      then ch
      else chan_set_user_status op true user ch

  -- A mode of a user, with its argument.
  unfoldable pub set_user_mode : Bool → Bool → Bool → UserMode → Bytes → Chan → Chan
  set_user_mode servermode check add um nick ch =
      if is_protected um && not add && svc.is_bot nick
      then ch
      else user_mode_of servermode check add um ch (svc.finduser nick)

  unfoldable pub set_flag : Bool → ℕ → Chan → Chan
  set_flag add flag ch = record ch { mode = update ch.mode flag add }

  abbrev pub to_limit : Option Bytes → ℕ
  to_limit none = 0
  to_limit (some v) = svc.strtoul v

  -- `cbm->setvalue(chan, value)`
  unfoldable pub set_value : SetValue → Option Bytes → Chan → Chan
  set_value no_value v ch = ch
  set_value set_key v ch = record ch { key = v }
  set_value set_limit v ch = record ch { limit = to_limit v }

  abbrev pub value_of : Bool → Bytes → Option Bytes
  value_of true a = some a
  value_of false a = none

  abbrev pub after_limit : Bool → Cursor → Cursor
  after_limit true k = take_arg (λ a. set_value set_limit (some a)) k
  after_limit false k = record k { chan = set_value set_limit none k.chan }

  -- What follows the flag: `l`, whose entry has CBM_MINUS_NO_ARG, takes no argument behind a minus.
  abbrev pub after_flag : SetValue → Cursor → Cursor
  after_flag no_value k = k
  after_flag set_key k = take_arg (λ a. set_value set_key (value_of k.add a)) k
  after_flag set_limit k = after_limit k.add k

  abbrev pub set_cbmode : ℕ → Cursor → Option CbMode → Cursor
  set_cbmode c k (some m) = after_flag m.setvalue (record k { chan = set_flag k.add m.flag k.chan })
  set_cbmode c k none =
      if c == b'b' then take_arg (λ a. if k.add then add_ban a else del_ban a) k else k

  abbrev pub set_cumode : Bool → Bool → ℕ → Cursor → Option UserMode → Cursor
  set_cumode servermode check c k (some um) = take_arg (set_user_mode servermode check k.add um) k
  set_cumode servermode check c k none = set_cbmode c k (cbmode_in c cbmodes)

  -- One letter of the modes. A letter above 127 is a negative `char`.
  unfoldable pub set_mode : Bool → Bool → ℕ → Cursor → Cursor
  set_mode servermode check c k =
      if c == b'+'
      then record k { add = true }
      else if c == b'-'
      then record k { add = false }
      else if leb 128 c
      then k
      else set_cumode servermode check c k (cumode c)

  unfoldable pub set_modes : Bool → Bool → Bytes → Cursor → Cursor
  set_modes servermode check [] k = k
  set_modes servermode check (c ∷ s) k =
      set_modes servermode check s (set_mode servermode check c k)

  abbrev pub has_dot : Bytes → Bool
  has_dot [] = false
  has_dot (c ∷ s) = if c == b'.' then true else has_dot s

  -- `av` is the modes and their arguments; `check_modes` is ChanServ's.
  unfoldable pub chan_set_modes : (Chan → Chan) → Bytes → Bytes → List Bytes → Bool → Chan → Chan
  chan_set_modes check_modes source modes args check ch =
      let done =
        (set_modes (has_dot source) check modes
          (record { add = true; args = args; chan = ch })).chan in
      if check then check_modes done else done
