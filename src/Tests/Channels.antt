-- ===== src/Tests/Channels.antt =====
-- channels.c: users who join, part, are kicked and leave, and the modes of a channel.
use k9_chatnet.Common.{
  ℕ, ◌≡◌, refl, true, false, List, [], ◌∷◌, ◌++◌, Bytes, Option, none, some, codes, ◌==◌,
}
use k9_chatnet.Channel.{Net}
use k9_chatnet.Channel.Counts.{times_in, times_on}
use k9_chatnet.Channel.Linked.{IsLinked}
use k9_chatnet.Channel.Messages.{Event, join, part, kick, quit, handle_all, handle_all-IsLinked}
use k9_chatnet.Channel.Modes.{
  Services, Chan, CbMode, no_value, op, cbmodes, cbmode_in, chan_set_modes,
}
use k9_chatnet.Channel.Modes.Signs.{last_sign, chan_set_modes-last_sign}
use k9_chatnet.Channel.Modes.Changes.{
  Signed, user, flag, key, limit, ban, changes_text, changes_args, letter_of, args_of,
  changes_meaning, chan_set_modes-changes,
}

abbrev empty_net : Net
empty_net = record {
  chans = λ u. [];
  users = λ c. [];
  usercount = λ c. 0;
  name = λ c. [];
  chanlist = λ i. [];
  next = 1;
}

empty_net-IsLinked : IsLinked empty_net
unfolding times_in times_on
empty_net-IsLinked = record {
  both = λ u c. refl;
  counted = λ c. refl;
  fresh = λ c out. refl;
  listed = λ i. tt;
}

abbrev finduser : Bytes → Option ℕ
finduser [] = none
finduser (c ∷ s) = some c

abbrev history : List Event
history =
    join (λ n s. false) 65 (codes "#a,#bc,#A")
    ∷ join (λ n s. false) 66 (codes "#a,")
    ∷ part 65 (codes "#A")
    ∷ kick (λ s. false) finduser (codes "#a") (codes "B,,A")
    ∷ quit 65
    ∷ []

handle_all-IsLinked_example : IsLinked (handle_all history empty_net)
handle_all-IsLinked_example = handle_all-IsLinked history empty_net empty_net-IsLinked

abbrev services : Services
services = record {
  finduser = finduser;
  is_bot = λ s. false;
  check_valid_op = λ n u c s. true;
  is_refused = λ s. false;
  stick = λ mask bs. bs;
  strtoul = λ s. 10;
}

abbrev chan : Chan
chan = record { id = 1; mode = λ f. f == 0; key = none; limit = 0; bans = []; net = empty_net }

abbrev m_mode : CbMode
m_mode = record { letter = b'm'; flag = 1; setvalue = no_value }

chan_set_modes-last_sign_example :
    (chan_set_modes services (λ ch. ch) (codes "irc.net") (codes "+mk-i+l-m") [] false chan).mode 1
    ≡ false
unfolding cbmode_in cbmodes last_sign
chan_set_modes-last_sign_example =
    chan_set_modes-last_sign services (λ ch. ch) (codes "irc.net") (codes "+mk-i+l-m") [] b'm'
      m_mode chan refl

abbrev changes : List Signed
changes =
    record { add = true; change = user op (codes "A") }
    ∷ record { add = true; change = key (codes "pw") }
    ∷ record { add = false; change = flag m_mode }
    ∷ record { add = false; change = limit (codes "x") }
    ∷ record { add = true; change = ban (codes "*!*@h") }
    ∷ []

changes_example :
    (changes_text true changes ≡ codes "ok-ml+b")
    × (changes_args changes ≡ codes "A" ∷ codes "pw" ∷ codes "*!*@h" ∷ [])
unfolding changes_text changes_args letter_of args_of
changes_example = (refl, refl)

chan_set_modes-changes_example :
    chan_set_modes services
      (λ ch. ch)
      (codes "irc.net")
      (changes_text true changes)
      (changes_args changes ++ codes "x" ∷ [])
      true
      chan
    ≡ changes_meaning services true true changes chan
unfolding cbmode_in cbmodes
chan_set_modes-changes_example =
    chan_set_modes-changes services (λ ch. ch) (codes "irc.net") changes (codes "x" ∷ []) chan
      (tt, (tt, ((refl, refl), (tt, (tt, tt)))))
