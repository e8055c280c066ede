-- ===== src/Tests/Locks.antt =====
-- chanserv.c: mode locks.
use k9_chatnet.Common.{
  ℕ, ◌≡◌, refl, true, false, ◌&&◌, ◌||◌, not, List, [], ◌∷◌, Bytes, none, some, codes, ◌==◌,
  if◌then◌else◌,
}
use k9_chatnet.Channel.{Net}
use k9_chatnet.Channel.Modes.{Services}
use k9_chatnet.ChanServ.{ModeLock}
use k9_chatnet.ChanServ.Check.{Watched, check_modes, cbmodeinfos}
use k9_chatnet.ChanServ.Check.Agreed.{check_modes-replay, replay}
use k9_chatnet.ChanServ.Check.Meaning.{is_listed}
use k9_chatnet.ChanServ.Check.Enforced.{check_modes-mode}
use k9_chatnet.ChanServ.Check.Replay.{HasValues}
use k9_chatnet.ChanServ.Mlock.{do_set_mlock, Answer, changed, fresh_lock}
use k9_chatnet.ChanServ.Mlock.Entries.{IsLock}
use k9_chatnet.ChanServ.Mlock.Kept.{do_set_mlock-IsLock, do_set_mlock-check_modes}
use k9_chatnet.ChanServ.Mlock.{lock_modes}
use k9_chatnet.ChanServ.Mlock.{lock_mode}
use k9_chatnet.Channel.Modes.{cbmode_in}
use k9_chatnet.Channel.Modes.{cbmodes}
use k9_chatnet.ChanServ.Mlock.{lock_set}
use k9_chatnet.ChanServ.Mlock.{lock_clear}
use k9_chatnet.ChanServ.{cs_set_value}
use k9_chatnet.ChanServ.{cs_set_key}
use k9_chatnet.ChanServ.{cs_set_limit}
use k9_chatnet.ChanServ.Check.{count_check}
use k9_chatnet.ChanServ.Check.{mend}
use k9_chatnet.ChanServ.Check.{clear_modes}
use k9_chatnet.ChanServ.Check.{drop_plus}
use k9_chatnet.ChanServ.Check.{lock_on_all}
use k9_chatnet.ChanServ.Check.{lock_on}
use k9_chatnet.ChanServ.Check.{lock_off_all}
use k9_chatnet.ChanServ.Check.{lock_off}
use k9_chatnet.ChanServ.Check.{value_on}
use k9_chatnet.ChanServ.Check.{value_in}
use k9_chatnet.ChanServ.Check.{some_flag}
use k9_chatnet.Channel.Modes.{set_flag}
use k9_chatnet.Channel.Modes.{set_value}

abbrev empty_net : Net
empty_net = record {
  chans = λ u. [];
  users = λ c. [];
  usercount = λ c. 0;
  name = λ c. [];
  chanlist = λ i. [];
  next = 1;
}

abbrev read_number : Bytes → ℕ
read_number [] = 0
read_number (c ∷ s) = c

abbrev services : Services
services = record {
  finduser = λ s. none;
  is_bot = λ s. false;
  check_valid_op = λ n u c s. true;
  is_refused = λ s. false;
  stick = λ mask bs. bs;
  strtoul = read_number;
}

abbrev watched : Watched
watched = record {
  chan = record {
    id = 1;
    mode = λ f. (f == 4) || (f == 6);
    key = some (codes "old");
    limit = 0;
    bans = [];
    net = empty_net;
  };
  bouncy_modes = false;
  server_modecount = 1;
  chanserv_modecount = 7;
  chanserv_modetime = 50;
  sent = [];
}

abbrev print : ℕ → Bytes
print n = n ∷ []

abbrev words : List Bytes
words = codes "#a" ∷ codes "+ktl-s" ∷ codes "new" ∷ codes "9" ∷ []

abbrev locked : Answer → ModeLock
locked Answer.syntax = fresh_lock
locked Answer.not_registered = fresh_lock
locked Answer.denied = fresh_lock
locked Answer.defcon = fresh_lock
locked (changed ci) = ci

-- What the command makes of the words.
abbrev lock : ModeLock
lock = locked (do_set_mlock services (λ s. true) (λ s. true) false false words)

answered : do_set_mlock services (λ s. true) (λ s. true) false false words ≡ changed lock
unfolding do_set_mlock lock_modes lock_mode cbmode_in cbmodes lock_set lock_clear cs_set_value
    cs_set_key cs_set_limit
answered = refl

-- The channel loses the mode s, gets t and l, and its key is changed.
sent_command :
    (check_modes services print 50 (some lock) watched).sent
    ≡ (codes "+klrt-s", codes "new" ∷ codes "9" ∷ []) ∷ []
unfolding check_modes do_set_mlock lock_modes lock_mode cbmode_in cbmodes lock_set lock_clear
    cs_set_value cs_set_key cs_set_limit count_check mend clear_modes drop_plus lock_on_all lock_on
    lock_off_all lock_off value_on value_in some_flag cbmodeinfos set_flag set_value fresh_lock
sent_command = refl

do_set_mlock-IsLock_example : IsLock lock
do_set_mlock-IsLock_example =
    do_set_mlock-IsLock services (λ s. true) (λ s. true) false false words lock answered

lock-HasValues : HasValues lock
lock-HasValues =
    (do_set_mlock-IsLock services (λ s. true) (λ s. true) false false words lock answered).values

check_modes-replay_example :
    replay services
      (codes "irc.net")
      (check_modes services print 50 (some lock) watched).sent
      watched.chan
    ≡ (check_modes services print 50 (some lock) watched).chan
check_modes-replay_example =
    check_modes-replay services print (codes "irc.net") 50 (some lock) watched lock-HasValues refl

check_modes-mode_example : (check_modes services print 50 (some lock) watched).chan.mode 5 ≡ (
    if is_listed 5 cbmodeinfos
    then (watched.chan.mode 5 || lock.mlock_on 5) && not (lock.mlock_off 5)
    else watched.chan.mode 5)
check_modes-mode_example = check_modes-mode services print 50 lock watched 5 refl refl

do_set_mlock-check_modes_example :
    ((f : ℕ)
      → is_listed f cbmodeinfos ≡ true
      → (lock.mlock_on f ≡ true
          → (check_modes services print 50 (some lock) watched).chan.mode f ≡ true)
        × (lock.mlock_off f ≡ true
            → (check_modes services print 50 (some lock) watched).chan.mode f ≡ false))
    × (replay services
          (codes "irc.net")
          (check_modes services print 50 (some lock) watched).sent
          watched.chan
        ≡ (check_modes services print 50 (some lock) watched).chan)
do_set_mlock-check_modes_example =
    do_set_mlock-check_modes services (λ s. true) (λ s. true) false false print (codes "irc.net") 50
      words lock watched answered refl refl refl
