-- ===== src/NickServ/Login/Steps.antt =====
-- nickserv.c and users.c: each event keeps that who is identified has earned it.
use k9_chatnet.Common.{
  ℕ, ◌≡◌, refl, Bool, true, false, ◌&&◌, ◌||◌, not, List, ◌∷◌, Bytes, Option, none, some, ◌==◌,
  ==-refl, if◌then◌else◌, if_cases,
}
use k9_chatnet.Common.Int.{ℤ}
use k9_chatnet.User.{User}
use k9_chatnet.NickServ.Login.{
  Core, Net, with_status, on_alias, cancel_user, validate_user, log_out, or_status, accepts,
  do_identify, do_logout, do_logout_other,
}
use k9_chatnet.NickServ.Login.Flags.{
  Lower, Lower-same, Lower-trans, with_status-Lower, on_alias-Lower, Lowers-log_out,
}
use k9_chatnet.NickServ.Login.Earned.{Event, identifies, earned}
use k9_chatnet.NickServ.Login.Vouched.{
  Vouched, Alone, Lower-Vouched, Lower-Alone, cancel_user-Lower, validate_user-Lower, raise-Vouched,
}

or_true : (a b : Bool) → a ≡ true → (a || b) ≡ true
or_true true b h = refl
or_true false b h = cc

or_last : (a b : Bool) → b ≡ true → (a || b) ≡ true
or_last true b h = refl
or_last false b h = h

unnegated : (b : Bool) → not b ≡ false → b ≡ true
unnegated true h = refl
unnegated false h = cc

module _ (person : ℕ → User) (core : ℕ → Core) (nc_of : ℕ → ℕ) (findnick : Bytes → Option ℕ)
    (check_password : Bytes → Bytes → ℤ) where
  -- What an event keeps: the records and what has been earned.
  abbrev pub Good : Net → List Event → Type 0
  Good net es =
      Vouched person core nc_of findnick check_password net es
      × Alone person core nc_of findnick check_password net

  pub Lower-Good : (net net' : Net) (es : List Event) → Lower net net' → Good net es → Good net' es
  Lower-Good net net' es l (h, alone) = (
    Lower-Vouched person core nc_of findnick check_password net net' es l h,
    Lower-Alone person core nc_of findnick check_password net net' l alone,
  )

  pub do_identify-Good :
      (u : ℕ) (pass : Bytes) (net : Net) (es : List Event)
      → Good net es
      → Good
          (do_identify person core nc_of findnick check_password u pass net)
          (identifies u pass ∷ es)
  unfolding do_identify earned
  do_identify-Good u pass net es (h, alone) = go (net.na u) refl
    where
      kept : Good net (identifies u pass ∷ es)
      kept = (
        λ a i.
            let (v, (has, got)) = h a i in
            (
              v,
              (
                has,
                or_true (earned person core nc_of findnick check_password es v (nc_of a))
                    (u == v && accepts person core nc_of findnick check_password pass (nc_of a))
                    got,
              ),
            ),
        alone,
      )

      go :
          (o : Option ℕ)
          → net.na u ≡ o
          → Good
              (on_alias o
                (λ a n.
                  if (n.status a).is_verboten
                  then n
                  else if not (accepts person core nc_of findnick check_password pass (nc_of a))
                  then n
                  else if (n.status a).is_identified
                  then n
                  else with_status a (or_status true false) n)
                net)
              (identifies u pass ∷ es)
      go none e = kept
      go (some a) e =
          let P : Net → Type 0 = λ n. Good n (identifies u pass ∷ es) in
          if_cases P (net.status a).is_verboten _ _ (λ f. kept)
            (λ f.
              if_cases P (not (accepts person core nc_of findnick check_password pass (nc_of a))) _
                _ (λ g. kept)
                (λ g.
                  if_cases P (net.status a).is_identified _ _ (λ k. kept)
                    (λ k. (
                      raise-Vouched person core nc_of findnick check_password net
                          (identifies u pass ∷ es) u a true false e
                          (λ l.
                            let fits =
                              accepts person core nc_of findnick check_password pass (nc_of a) in
                            let ok : (u == u && fits) ≡ true = rw (==-refl u) (unnegated fits g) in
                            or_last
                              (earned person core nc_of findnick check_password es u (nc_of a))
                              (u == u && fits) ok)
                          kept.0,
                      alone,
                    ))))

  pub do_logout-Lower :
      (u : ℕ) (net : Net) → Lower net (do_logout person core nc_of findnick check_password u net)
  unfolding do_logout
  do_logout-Lower u net = on_alias-Lower (net.na u) _ net (λ a.
      if_cases (λ n. Lower net n) ((net.status a).is_verboten || not (net.status a).is_identified)
        net (with_status a log_out net) (λ e. Lower-same net)
        (λ e. with_status-Lower a log_out net Lowers-log_out))

  pub do_logout_other-Lower :
      (u : ℕ) (is_admin is_revalidate : Bool) (net : Net)
      → Lower net
          (do_logout_other person core nc_of findnick check_password u is_admin is_revalidate net)
  unfolding do_logout_other
  do_logout_other-Lower u is_admin is_revalidate net =
      let cancelled = cancel_user u net in
      on_alias-Lower (net.na u) _ net (λ a.
        if_cases (λ n. Lower net n) ((net.status a).is_verboten || is_admin) net
          (if is_revalidate
            then validate_user person core nc_of findnick check_password u cancelled
            else with_status a log_out net)
          (λ e. Lower-same net)
          (λ e.
            if_cases (λ n. Lower net n) is_revalidate _ _
              (λ f.
                Lower-trans net cancelled
                  (validate_user person core nc_of findnick check_password u cancelled)
                  (cancel_user-Lower person core nc_of findnick check_password u net)
                  (validate_user-Lower person core nc_of findnick check_password u cancelled))
              (λ f. with_status-Lower a log_out net Lowers-log_out)))
