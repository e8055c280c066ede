-- ===== src/Channel.antt =====
-- channels.c and the membership lists of users.c, in the build for Bahamut. A pointer to a user or to a
-- channel is a number. What the functions send to users and servers is left out.
pub mod Counts
pub mod Linked
pub mod Messages
pub mod Modes
use k9_chatnet.Common.{
  ℕ, zero, suc, ◌+◌, ◌-◌, ◌*◌, ◌%◌, Bool, true, false, ◌&&◌, ◌||◌, List, [], ◌∷◌, ◌++◌, Bytes,
  Option, none, some, peek, take, ◌==◌, if◌then◌else◌,
}
use k9_chatnet.Text.Case.{same_text}

-- `struct u_chanlist`: the status bits are CUS_OP and CUS_VOICE.
pub record Member : Type 0 where
  pub chan : ℕ
  pub op : Bool
  pub voice : Bool

-- What is kept of the users and channels: the channels of a user, the users of a channel and their
-- count, the names of the channels, the lists that `chanlist` holds, and the pointer that the next
-- allocation of a channel returns.
pub record Net : Type 0 where
  pub chans : ℕ → List Member
  pub users : ℕ → List ℕ
  pub usercount : ℕ → ℕ
  pub name : ℕ → Bytes
  pub chanlist : ℕ → List ℕ
  pub next : ℕ

abbrev pub update : {A : Type 0} → (ℕ → A) → ℕ → A → ℕ → A
update f i a k = if k == i then a else f k

abbrev pub tail_of : Bytes → Bytes
tail_of [] = []
tail_of (c ∷ s) = s

-- `HASH`: the halves have no bit in common.
unfoldable pub hash : Bytes → ℕ
hash chan =
    let rest = tail_of chan in
    if peek rest == 0 then 0 else peek rest % 32 * 32 + peek (tail_of rest) % 32

-- The loop of `findchan` over one list.
unfoldable pub find_in : (ℕ → Bytes) → Bytes → List ℕ → Option ℕ
find_in name chan [] = none
find_in name chan (c ∷ cs) =
    let later = find_in name chan cs in if same_text (name c) chan then some c else later

unfoldable pub findchan : Net → Bytes → Option ℕ
findchan net chan = find_in net.name chan (net.chanlist (hash chan))

-- `chan_create`, without what it restores from ChanServ: CHANMAX is 64.
unfoldable pub chan_create : Bytes → Net → Net
chan_create chan net =
    let short = take 63 chan in
    record net {
      name = update net.name net.next short;
      chanlist = update net.chanlist (hash short) (net.next ∷ net.chanlist (hash short));
      users = update net.users net.next [];
      usercount = update net.usercount net.next 0;
      next = net.next + 1;
    }

-- The lists of `join_user_update` and `chan_adduser2`, for a channel that is there.
unfoldable pub link_user : ℕ → ℕ → Net → Net
link_user user c net = record net {
  chans = update net.chans user (record { chan = c; op = false; voice = false } ∷ net.chans user);
  users = update net.users c (user ∷ net.users c);
  usercount = update net.usercount c (net.usercount c + 1);
}

abbrev pub join_found : ℕ → Bytes → Net → Option ℕ → Net
join_found user chan net (some c) = link_user user c net
join_found user chan net none = link_user user net.next (chan_create chan net)

-- `join_user_update(user, findchan(chan), chan)`
unfoldable pub join_user_update : ℕ → Bytes → Net → Net
join_user_update user chan net = join_found user chan net (findchan net chan)

abbrev pub keep_user : ℕ → Option (List ℕ) → Option (List ℕ)
keep_user u none = none
keep_user u (some l) = some (u ∷ l)

-- The list without the first entry for the user, if there is one.
unfoldable pub remove_user : ℕ → List ℕ → Option (List ℕ)
remove_user user [] = none
remove_user user (u ∷ us) =
    let later = remove_user user us in if u == user then some us else keep_user u later

abbrev pub deluser_found : ℕ → Net → Option (List ℕ) → Net
deluser_found c net none = net
deluser_found c net (some us) = record net {
  users = update net.users c us;
  usercount = update net.usercount c (net.usercount c - 1);
}

unfoldable pub chan_deluser : ℕ → ℕ → Net → Net
chan_deluser user c net = deluser_found c net (remove_user user (net.users c))

abbrev pub keep_member : Member → Option (ℕ × List Member) → Option (ℕ × List Member)
keep_member m none = none
keep_member m (some (c, l)) = some (c, m ∷ l)

-- The first entry of a user's list for a channel with the name, and the list without it.
unfoldable pub remove_member : (ℕ → Bytes) → Bytes → List Member → Option (ℕ × List Member)
remove_member name chan [] = none
remove_member name chan (m ∷ ms) =
    let later = remove_member name chan ms in
    if same_text chan (name m.chan) then some (m.chan, ms) else keep_member m later

abbrev pub leave_found : ℕ → Net → Option (ℕ × List Member) → Net
leave_found user net none = net
leave_found user net (some (c, ms)) =
    let left = chan_deluser user c net in record left { chans = update left.chans user ms }

-- The step of `do_part` and `do_kick` for one name.
unfoldable pub leave : ℕ → Bytes → Net → Net
leave user chan net = leave_found user net (remove_member net.name chan (net.chans user))

unfoldable pub deluser_all : ℕ → List Member → Net → Net
deluser_all user [] net = net
deluser_all user (m ∷ ms) net = deluser_all user ms (chan_deluser user m.chan net)

-- JOIN 0, and the channels in `delete_user`
unfoldable pub leave_all : ℕ → Net → Net
leave_all user net =
    let left = deluser_all user (net.chans user) net in
    record left { chans = update left.chans user [] }

unfoldable pub is_on_list : ℕ → List Member → Bool
is_on_list c [] = false
is_on_list c (m ∷ ms) = if m.chan == c then true else is_on_list c ms

unfoldable pub is_on_chan : ℕ → ℕ → Net → Bool
is_on_chan c user net = is_on_list c (net.chans user)
