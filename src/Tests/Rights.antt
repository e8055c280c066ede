-- ===== src/Tests/Rights.antt =====
-- chanserv.c: the access lists.
use k9_chatnet.Common.{arith, ℕ, ◌≡◌, refl, true, false, [], ◌∷◌, Bytes, Option, none, some, codes}
use k9_chatnet.Common.Int.{ℤ, pos}
use k9_chatnet.ChanServ.Access.{
  ChanAccess, ChannelInfo, NickAlias, User, get_access, get_access_entry, check_access, is_founder,
  is_identified, nick_identified, nick_recognized, is_allowed,
}
use k9_chatnet.ChanServ.Access.Change.{
  Setting, adduser, run_command, Removal, access_del_callback, free_place,
}
use k9_chatnet.ChanServ.Access.Change.Entries.{Unique}
use k9_chatnet.ChanServ.Access.Change.Steps.{OnlyBelow}
use k9_chatnet.ChanServ.Access.Change.Authority.{run_command-OnlyBelow}

abbrev entry : ℕ → ℤ → ChanAccess
entry nc level = record { in_use = true; nc = some nc; level = level; last_seen = 5 }

abbrev chan : ChannelInfo
chan = record {
  id = 1;
  founder = some 1;
  is_secure = false;
  is_secureops = false;
  is_verboten = false;
  levels = λ w. pos 400;
  access = entry 2 (pos 100) ∷ entry 3 (pos 450) ∷ [];
  last_used = 0;
}

abbrev nick : ℕ → NickAlias
nick nc = record { nc = nc; is_identified = true; is_recognized = false; is_verboten = false }

abbrev user : ℕ → User
user nc = record { is_super_admin = false; na = some (nick nc); founder_chans = [] }

abbrev find : Bytes → Option NickAlias
find [] = none
find (c ∷ s) = some (nick c)

abbrev setting : Setting
setting = record {
  is_servadmin = false;
  readonly = false;
  find = find;
  max = 10;
  now = 77;
  fresh = record { in_use = false; nc = none; level = pos 0; last_seen = 0 };
}

distinct : Unique chan.access
distinct = (((λ m e. ground arith), tt), (tt, tt))

run_command-OnlyBelow_example :
    OnlyBelow
      (user 2)
      chan
      (run_command setting (user 2) (adduser (codes "A") (codes "50")) chan).ci
run_command-OnlyBelow_example =
    run_command-OnlyBelow setting (user 2) refl (adduser (codes "A") (codes "50")) chan distinct
      refl

denied : (check_access 77 (user 2) 11 chan).0 ≡ false
unfolding check_access is_allowed get_access is_founder is_identified nick_identified
    nick_recognized get_access_entry
denied = refl

-- Entry 1 is below the level of the user, and entry 2 is his own.
abbrev listed : Removal × ℤ
listed =
    access_del_callback setting (user 3) (get_access (user 3) chan)
      (record { ci = chan; last = none; perm = 0 }) 1

removed :
    (get_access_entry 2 listed.0.ci.access ≡ none)
    × (get_access_entry 3 listed.0.ci.access ≡ some (entry 3 (pos 450)))
unfolding access_del_callback get_access is_founder is_identified nick_identified nick_recognized
    get_access_entry free_place
removed = (refl, refl)
