-- ===== src/NickServ/Login/Earned.antt =====
-- nickserv.c and users.c: what a user has done since he connected that lets him be identified.
use k9_chatnet.Common.{
  ℕ, ◌≡◌, Bool, false, ◌&&◌, ◌||◌, List, [], ◌∷◌, Bytes, Option, none, some, ◌==◌, if◌then◌else◌,
}
use k9_chatnet.Common.Int.{ℤ}
use k9_chatnet.User.{User}
use k9_chatnet.NickServ.Login.{
  Core, Net, accepts, do_nick_new, do_nick_change, do_identify, do_logout, do_logout_other,
  delete_user,
}

pub data Event : Type 0 where
  connects : ℕ → Bytes → Bool → Event
  renames : ℕ → Bytes → Bool → Event
  identifies : ℕ → Bytes → Event
  logs_out : ℕ → Event
  is_logged_out : ℕ → Bool → Bool → Event
  quits : ℕ → Event

module _ (person : ℕ → User) (core : ℕ → Core) (nc_of : ℕ → ℕ) (findnick : Bytes → Option ℕ)
    (check_password : Bytes → Bytes → ℤ) where
  abbrev pub is_nc : ℕ → Option ℕ → Bool
  is_nc nc none = false
  is_nc nc (some a) = nc_of a == nc

  -- The latest event stands first. Since he connected, the user has given a password that the group accepts, or the
  -- server has said as he connected that he had identified for a nick of the group.
  unfoldable pub earned : List Event → ℕ → ℕ → Bool
  earned [] u nc = false
  earned (connects v nick is_same ∷ es) u nc =
      let before = earned es u nc in if v == u then is_same && is_nc nc (findnick nick) else before
  earned (identifies v pass ∷ es) u nc =
      let before = earned es u nc in
      before || (v == u && accepts person core nc_of findnick check_password pass nc)
  earned (quits v ∷ es) u nc = let before = earned es u nc in if v == u then false else before
  earned (renames v nick is_sqlined ∷ es) u nc = earned es u nc
  earned (logs_out v ∷ es) u nc = earned es u nc
  earned (is_logged_out v is_admin is_revalidate ∷ es) u nc = earned es u nc

  unfoldable pub apply : Event → Net → Net
  apply (connects u nick is_same) net =
      do_nick_new person core nc_of findnick check_password u nick is_same net
  apply (renames u nick is_sqlined) net =
      do_nick_change person core nc_of findnick check_password u nick is_sqlined net
  apply (identifies u pass) net = do_identify person core nc_of findnick check_password u pass net
  apply (logs_out u) net = do_logout person core nc_of findnick check_password u net
  apply (is_logged_out u is_admin is_revalidate) net =
      do_logout_other person core nc_of findnick check_password u is_admin is_revalidate net
  apply (quits u) net = delete_user person core nc_of findnick check_password u net

  -- No other user has the nick's record.
  abbrev pub IsFree : Net → ℕ → Option ℕ → Type 0
  IsFree net u none = Unit
  IsFree net u (some a) = (v : ℕ) → net.na v ≡ some a → v ≡ u

  -- What the network sees to: who connects was not there, and no two users have one nick.
  abbrev pub IsAllowed : Event → Net → Type 0
  IsAllowed (connects u nick is_same) net = (net.na u ≡ none) × IsFree net u (findnick nick)
  IsAllowed (renames u nick is_sqlined) net = IsFree net u (findnick nick)
  IsAllowed _ net = Unit

  -- From the records with no user, and none identified, on.
  pub data Reached (start : Net) : Net → List Event → Type 0 where
    begin : Reached start start []
    happens :
        (net : Net) (es : List Event) (e : Event)
        → Reached start net es
        → IsAllowed e net
        → Reached start (apply e net) (e ∷ es)
