-- ===== src/Tests/Logins.antt =====
-- nickserv.c and users.c: users who identify and change their nicks.
use k9_chatnet.Common.{
  ℕ, ◌≡◌, refl, true, false, List, [], ◌∷◌, Bytes, Option, none, some, codes, ◌==◌, if◌then◌else◌,
  Bool-cases, ==_iff, inl, inr, sym, ◌∙◌,
}
use k9_chatnet.NickServ.Login.Vouched.{nothing_there}
use k9_chatnet.Common.Int.{ℤ, pos}
use k9_chatnet.Text.Case.{same_text, stricmp, tolower}
use k9_chatnet.User.{User}
use k9_chatnet.NickServ.Access.{is_on_access}
use k9_chatnet.NickServ.Login.{
  Core, Net, cancelled, cancel_user, validated, validate_user, do_nick_new, do_nick_change,
  do_identify,
}
use k9_chatnet.NickServ.Login.Earned.{
  Event, connects, renames, identifies, earned, apply, Reached, begin, happens,
}
use k9_chatnet.NickServ.Login.Safe.{Reached-earned}

abbrev person : ℕ → User
person u = record {
  nick = [];
  username = codes "ann";
  host = codes "net";
  vhost = none;
  vident = none;
}

abbrev core : ℕ → Core
core nc = record {
  pass = codes "pw";
  access = [];
  is_secure = true;
  is_kill_protected = true;
  is_kill_immed = false;
}

-- The records 0 and 1 are of one group.
abbrev nc_of : ℕ → ℕ
nc_of a = if a == 2 then 8 else 7

abbrev findnick : Bytes → Option ℕ
findnick nick =
    if same_text nick (codes "ann")
    then some 0
    else if same_text nick (codes "anna")
    then some 1
    else if same_text nick (codes "bob")
    then some 2
    else none

abbrev check_password : Bytes → Bytes → ℤ
check_password s t = if same_text s t then pos 1 else pos 0

abbrev idle : Net
idle = record {
  status = λ a. record {
    is_verboten = false;
    is_identified = false;
    is_recognized = false;
    is_on_list = false;
    is_kill_held = false;
    is_guested = false;
  };
  nick = λ u. [];
  na = λ u. none;
}

abbrev events : List Event
events =
    renames 5 (codes "anna") false ∷ identifies 5 (codes "pw") ∷ connects 5 (codes "ann") false ∷ []

abbrev step : Event → Net → Net
step = apply person core nc_of findnick check_password

abbrev online : Net
online = step (connects 5 (codes "ann") false) idle

abbrev known : Net
known = step (identifies 5 (codes "pw")) online

abbrev moved : Net
moved = step (renames 5 (codes "anna") false) known

-- The new nick is of the same group.
still_identified : (moved.na 5 ≡ some 1) × ((moved.status 1).is_identified ≡ true)
unfolding apply do_nick_new do_nick_change do_identify validate_user validated cancel_user cancelled
    is_on_access stricmp tolower
still_identified = (refl, refl)

-- A nick of another group.
abbrev left : Net
left = step (renames 5 (codes "bob") false) known

not_identified : (left.na 5 ≡ some 2) × ((left.status 2).is_identified ≡ false)
unfolding apply do_nick_new do_nick_change do_identify validate_user validated cancel_user cancelled
    is_on_access stricmp tolower
not_identified = (refl, refl)

only_five : (v : ℕ) → known.na v ≡ some 1 → v ≡ 5
unfolding apply do_nick_new do_identify validate_user validated is_on_access stricmp tolower
only_five v h = elim (Bool-cases (v == 5)) [
  | inl own ↦ (==_iff v 5).0 own
  | inr other ↦ absurd (nothing_there 1 (sym (rw other refl) ∙ h))
]

moved-Reached : Reached person core nc_of findnick check_password idle moved events
unfolding apply do_nick_new do_identify validate_user validated is_on_access stricmp tolower
moved-Reached =
    happens known (identifies 5 (codes "pw") ∷ connects 5 (codes "ann") false ∷ [])
      (renames 5 (codes "anna") false)
      (happens online (connects 5 (codes "ann") false ∷ []) (identifies 5 (codes "pw"))
        (happens idle [] (connects 5 (codes "ann") false) begin
          (refl, λ v h. absurd (nothing_there 0 h)))
        tt)
      (λ v h. only_five v h)

Reached-earned_example : earned person core nc_of findnick check_password events 5 (nc_of 1) ≡ true
Reached-earned_example =
    Reached-earned person core nc_of findnick check_password idle moved events 5 1 moved-Reached
      (λ u. refl, λ a. refl) still_identified.0 still_identified.1
