-- ===== src/NickServ/Login/Safe.antt =====
-- nickserv.c and users.c: who is identified for a nick, through any history of users.
use k9_chatnet.Common.{ℕ, ◌≡◌, sym, ◌∙◌, subst, true, false, List, ◌∷◌, Bytes, Option, none, some}
use k9_chatnet.Common.Int.{ℤ}
use k9_chatnet.User.{User}
use k9_chatnet.NickServ.Login.{Core, Net, do_logout, do_logout_other}
use k9_chatnet.NickServ.Login.Earned.{
  Event, connects, renames, identifies, logs_out, is_logged_out, quits, earned, apply, IsAllowed,
  Reached, begin, happens,
}
use k9_chatnet.NickServ.Login.Vouched.{nothing_there, contradiction}
use k9_chatnet.NickServ.Login.Steps.{
  Good, Lower-Good, do_identify-Good, do_logout-Lower, do_logout_other-Lower,
}
use k9_chatnet.NickServ.Login.Moves.{delete_user-Good, do_nick_new-Good, do_nick_change-Good}

-- No users, and no record that is identified.
abbrev pub IsIdle : Net → Type 0
IsIdle net = ((u : ℕ) → net.na u ≡ none) × ((a : ℕ) → (net.status a).is_identified ≡ false)

module _ (person : ℕ → User) (core : ℕ → Core) (nc_of : ℕ → ℕ) (findnick : Bytes → Option ℕ)
    (check_password : Bytes → Bytes → ℤ) where
  apply-Good :
      (net : Net) (es : List Event) (e : Event)
      → IsAllowed person core nc_of findnick check_password e net
      → Good person core nc_of findnick check_password net es
      → Good person core nc_of findnick check_password
          (apply person core nc_of findnick check_password e net)
          (e ∷ es)
  unfolding apply earned
  apply-Good net es (connects u nick is_same) (absent, free) g =
      do_nick_new-Good person core nc_of findnick check_password u nick is_same net es absent free g
  apply-Good net es (renames u nick is_sqlined) free g =
      do_nick_change-Good person core nc_of findnick check_password u nick is_sqlined net es free g
  apply-Good net es (identifies u pass) ok g =
      do_identify-Good person core nc_of findnick check_password u pass net es g
  apply-Good net es (logs_out u) ok g =
      Lower-Good person core nc_of findnick check_password net
        (do_logout person core nc_of findnick check_password u net) es
        (do_logout-Lower person core nc_of findnick check_password u net) g
  apply-Good net es (is_logged_out u is_admin is_revalidate) ok g =
      Lower-Good person core nc_of findnick check_password net
        (do_logout_other person core nc_of findnick check_password u is_admin is_revalidate net) es
        (do_logout_other-Lower person core nc_of findnick check_password u is_admin is_revalidate
          net)
        g
  apply-Good net es (quits u) ok g =
      delete_user-Good person core nc_of findnick check_password u net es g

  Reached-Good :
      (start net : Net) (es : List Event)
      → Reached person core nc_of findnick check_password start net es
      → IsIdle start
      → Good person core nc_of findnick check_password net es
  Reached-Good start _ _ begin (empty, clear) = (
    λ a i. absurd (contradiction (sym i ∙ clear a)),
    λ u v a p q. absurd (nothing_there a (sym (empty u) ∙ p)),
  )
  Reached-Good start _ _ (happens net es e r ok) idle =
      apply-Good net es e ok (Reached-Good start net es r idle)

  -- Whatever users connect, change their nicks, identify, are logged out and leave, in any order: a user who is identified for
  -- his nick has, since he connected, given a password that the nick's group accepts, or the server had said
  -- as he connected that he had identified for the group. This holds where the network lets no
  -- two users have one nick, and from records on that nobody uses.
  pub Reached-earned :
      (start net : Net) (es : List Event) (u a : ℕ)
      → Reached person core nc_of findnick check_password start net es
      → IsIdle start
      → net.na u ≡ some a
      → (net.status a).is_identified ≡ true
      → earned person core nc_of findnick check_password es u (nc_of a) ≡ true
  Reached-earned start net es u a r idle has i =
      let (h, alone) = Reached-Good start net es r idle in
      let (v, (holds, got)) = h a i in
      let same : v ≡ u = alone v u a holds has in
      subst (λ w. earned person core nc_of findnick check_password es w (nc_of a) ≡ true) same got
