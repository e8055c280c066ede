-- ===== src/Tests/Kicks.antt =====
-- chanserv.c: users who are kicked as they join.
use k9_chatnet.Common.{◌≡◌, refl, true, false, [], ◌∷◌, Bytes, none, some, arith, codes}
use k9_chatnet.Common.Int.{pos}
use k9_chatnet.User.{User, match_usermask, has_byte, strtok, skip_byte, cut_at}
use k9_chatnet.User.Masks.{get_ident}
use k9_chatnet.Text.Case.{tolower}
use k9_chatnet.Text.Wild.{
  do_match_wild, match_wild_nocase, after_star, scan, same_byte, skip_one, take_byte,
}
use k9_chatnet.ChanServ.Access.{ChannelInfo, nick_recognized}
use k9_chatnet.ChanServ.Kicks.{
  AutoKick, Joining, Kicking, kicked, akick_matches, excepted_loop, find_akick, check_kick,
  IsKicked, KicksWith, check_kick-KicksWith,
}

abbrev visitor : User
visitor = record {
  nick = codes "Bob";
  username = codes "~bob";
  host = codes "10.1.2.3";
  vhost = none;
  vident = none;
}

abbrev joining : Joining
joining = record {
  user = record { is_super_admin = false; na = none; founder_chans = [] };
  person = visitor;
  is_hidden = false;
  is_exempt = false;
}

abbrev by_mask : Bytes → AutoKick
by_mask mask = record { is_used = true; is_nick = false; nc = 0; mask = mask }

abbrev chan : ChannelInfo
chan = record {
  id = 1;
  founder = some 1;
  is_secure = false;
  is_secureops = false;
  is_verboten = false;
  levels = λ w. pos 400;
  access = [];
  last_used = 0;
}

abbrev kicking : Kicking
kicking = record {
  ci = chan;
  bantype = 3;
  is_suspended = false;
  akick = by_mask (codes "*!*@10.2.*") ∷ by_mask (codes "*!*@10.1.*") ∷ [];
  excepts = some (codes "*!*@10.3.*" ∷ []);
}

check_kick_mask : (check_kick 5 joining (some kicking)).0 ≡ kicked (some (codes "*!*@10.1.*"))
unfolding check_kick find_akick akick_matches excepted_loop nick_recognized match_usermask has_byte
    strtok skip_byte cut_at match_wild_nocase do_match_wild after_star scan same_byte skip_one
    take_byte tolower
check_kick_mask = refl

check_kick-KicksWith_example :
    KicksWith joining (check_kick 5 joining (some kicking)).0 (IsKicked joining kicking)
check_kick-KicksWith_example =
    check_kick-KicksWith 5 joining kicking (omega arith, omega arith, tt, unfold get_ident in refl)
      (omega arith) (omega arith)
