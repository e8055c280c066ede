-- ===== src/NickServ/Login/Moves.antt =====
-- users.c: users who connect, change their nicks and leave keep that who is identified has earned it.
use k9_chatnet.Common.{
  ℕ, ◌≡◌, refl, sym, ap, ◌∙◌, subst, inl, inr, Bool, true, false, List, ◌∷◌, Bytes, Option, none,
  some, ◌==◌, ==_iff, ==-refl, if◌then◌else◌, Bool-cases, if_cases,
}
use k9_chatnet.Common.Int.{ℤ}
use k9_chatnet.Text.Case.{same_text}
use k9_chatnet.User.{User}
use k9_chatnet.User.Table.{put}
use k9_chatnet.NickServ.Login.{
  Core, Net, with_status, on_alias, cancel_user, or_status, nc_at, identified_at, recognized_at,
  revalidate, rename, transfer, do_nick_new, do_nick_change, delete_user,
}
use k9_chatnet.NickServ.Login.Flags.{Lower}
use k9_chatnet.NickServ.Login.Earned.{Event, connects, renames, quits, earned, IsFree}
use k9_chatnet.NickServ.Login.Steps.{Good, Lower-Good}
use k9_chatnet.NickServ.Login.Vouched.{
  Rest, Lower-Alone, cancel_user-Lower, revalidate-Lower, cancel_user-Rest, Rest-Vouched,
  raise-Vouched, rename-Rest, rename-Alone, nothing_there, contradiction,
}
use k9_chatnet.Common.{arith}

turned : (u v : ℕ) → (v == u) ≡ false → (u == v) ≡ false
turned u v h = ground arith

module _ (person : ℕ → User) (core : ℕ → Core) (nc_of : ℕ → ℕ) (findnick : Bytes → Option ℕ)
    (check_password : Bytes → Bytes → ℤ) where
  pub delete_user-Good :
      (u : ℕ) (net : Net) (es : List Event)
      → Good person core nc_of findnick check_password net es
      → Good person core nc_of findnick check_password
          (delete_user person core nc_of findnick check_password u net)
          (quits u ∷ es)
  unfolding delete_user earned
  delete_user-Good u net es (h, alone) =
      let after = cancel_user u net in
      let l = cancel_user-Lower person core nc_of findnick check_password u net in
      let rest = cancel_user-Rest person core nc_of findnick check_password u net es h in
      let alone' = Lower-Alone person core nc_of findnick check_password net after l alone in
      (
        λ a i.
            let (v, other, (has, got)) = rest a i in
            let still : net.na v ≡ some a = ap (λ f. f v) (sym l.same_na) ∙ has in
            (v, (rw other still, rw (turned u v other) got)),
        λ v w a p q. alone v w a (there u v a net p) (there u w a net q),
      )
    where
      there : (u v a : ℕ) (net : Net) → put net.na u none v ≡ some a → net.na v ≡ some a
      there u v a net p = elim (Bool-cases (v == u)) [
        | inl own ↦ absurd (nothing_there a (sym (rw own refl) ∙ p))
        | inr other ↦ sym (rw other refl) ∙ p
      ]

  -- The record of the user's new nick is identified only if he has earned that.
  raised :
      (net : Net) (es : List Event) (u : ℕ) (o : Option ℕ) (flag rec : Bool)
      → net.na u ≡ o
      → ((b : ℕ)
          → o ≡ some b
          → flag ≡ true
          → earned person core nc_of findnick check_password es u (nc_of b) ≡ true)
      → Good person core nc_of findnick check_password net es
      → Good person core nc_of findnick check_password
          (on_alias o (λ a. with_status a (or_status flag rec)) net)
          es
  raised net es u none flag rec e got good = good
  raised net es u (some b) flag rec e got (h, alone) = (
    raise-Vouched person core nc_of findnick check_password net es u b flag rec e (got b refl) h,
    alone,
  )

  pub do_nick_new-Good :
      (u : ℕ) (nick : Bytes) (is_same : Bool) (net : Net) (es : List Event)
      → net.na u ≡ none
      → IsFree person core nc_of findnick check_password net u (findnick nick)
      → Good person core nc_of findnick check_password net es
      → Good person core nc_of findnick check_password
          (do_nick_new person core nc_of findnick check_password u nick is_same net)
          (connects u nick is_same ∷ es)
  unfolding do_nick_new
  do_nick_new-Good u nick is_same net es absent free (h, alone) =
      let es' = connects u nick is_same ∷ es in
      let new = rename person core nc_of findnick check_password u nick net in
      let rest : Rest person core nc_of findnick check_password net es u = λ a i.
        let (v, (has, got)) = h a i in
        elim (Bool-cases (v == u)) [
          | inr other ↦ (v, other, (has, got))
          | inl own ↦
              absurd (nothing_there a (sym absent ∙ ap net.na (sym ((==_iff v u).0 own)) ∙ has))
        ] in
      let good : Good person core nc_of findnick check_password new es' = (
        Rest-Vouched person core nc_of findnick check_password new es es' u
            (λ v nc other g. unfold earned in rw (turned u v other) g)
            (rename-Rest person core nc_of findnick check_password net es u nick rest),
        rename-Alone person core nc_of findnick check_password net u nick alone free,
      ) in
      let unknown : Good person core nc_of findnick check_password
          (revalidate person core nc_of findnick check_password true u new) es' =
        Lower-Good person core nc_of findnick check_password new
          (revalidate person core nc_of findnick check_password true u new) es'
          (revalidate-Lower person core nc_of findnick check_password true u new) good in
      go (findnick nick) refl good unknown
    where
      go :
          (o : Option ℕ)
          → findnick nick ≡ o
          → let es' = connects u nick is_same ∷ es in
            let new = rename person core nc_of findnick check_password u nick net in
            let unknown = revalidate person core nc_of findnick check_password true u new in
            Good person core nc_of findnick check_password new es'
            → Good person core nc_of findnick check_password unknown es'
            → Good person core nc_of findnick check_password
                (elim o as (λ (_ : Option ℕ). Net) [
                  | none ↦ unknown
                  | some a ↦
                      if is_same
                      then revalidate person core nc_of findnick check_password false u
                          (on_alias (new.na u) (λ a. with_status a (or_status true false)) new)
                      else unknown
                ])
                es'
      go none e good other = other
      go (some a) e good other =
          let es' = connects u nick is_same ∷ es in
          let new = rename person core nc_of findnick check_password u nick net in
          let known = on_alias (new.na u) (λ a. with_status a (or_status true false)) new in
          let P : Net → Type 0 = λ n. Good person core nc_of findnick check_password n es' in
          if_cases P is_same (revalidate person core nc_of findnick check_password false u known)
            (revalidate person core nc_of findnick check_password true u new)
            (λ same.
              Lower-Good person core nc_of findnick check_password known
                (revalidate person core nc_of findnick check_password false u known) es'
                (revalidate-Lower person core nc_of findnick check_password false u known)
                (raised new es' u (new.na u) true false refl
                  (λ b f g.
                    let at : findnick nick ≡ some b = sym (rw (==-refl u) refl) ∙ f in
                    unfold earned in rw (==-refl u, same, at, ==-refl (nc_of b)) refl)
                  good))
            (λ same. other)

  pub do_nick_change-Good :
      (u : ℕ) (nick : Bytes) (is_sqlined : Bool) (net : Net) (es : List Event)
      → IsFree person core nc_of findnick check_password net u (findnick nick)
      → Good person core nc_of findnick check_password net es
      → Good person core nc_of findnick check_password
          (do_nick_change person core nc_of findnick check_password u nick is_sqlined net)
          (renames u nick is_sqlined ∷ es)
  unfolding do_nick_change earned
  do_nick_change-Good u nick is_sqlined net es free (h, alone) =
      let P : Net → Type 0 = λ n. Good person core nc_of findnick check_password n es in
      let cased : Net = record net { nick = put net.nick u nick } in
      let low : Lower net cased = record { same_na = refl; lower = λ a i. i } in
      let good_cased : P cased =
        Lower-Good person core nc_of findnick check_password net cased es low (h, alone) in
      let l = cancel_user-Lower person core nc_of findnick check_password u net in
      let after = cancel_user u net in
      let new = rename person core nc_of findnick check_password u nick after in
      let good_new : P new = (
        Rest-Vouched person core nc_of findnick check_password new es es u (λ v nc other g. g)
            (rename-Rest person core nc_of findnick check_password after es u nick
              (cancel_user-Rest person core nc_of findnick check_password u net es h)),
        rename-Alone person core nc_of findnick check_password after u nick
            (Lower-Alone person core nc_of findnick check_password net after l alone)
            (still_free after l (findnick nick) free),
      ) in
      let changed = transfer person core nc_of findnick check_password (net.na u) net u new in
      let good_changed : P changed =
        if_cases P
          (nc_at person core nc_of findnick check_password (net.na u)
            == nc_at person core nc_of findnick check_password (new.na u))
          (on_alias (new.na u)
            (λ a. with_status a (
              or_status (identified_at person core nc_of findnick check_password net (net.na u))
                (recognized_at person core nc_of findnick check_password net (net.na u))))
            new)
          new
          (λ same.
            raised new es u (new.na u)
              (identified_at person core nc_of findnick check_password net (net.na u))
              (recognized_at person core nc_of findnick check_password net (net.na u)) refl
              (λ b e i.
                in_group (net.na u) refl b i
                  ((==_iff _ _).0 same ∙ ap (nc_at person core nc_of findnick check_password) e))
              good_new)
          (λ differ. good_new) in
      let again = λ (b : Bool) (n : Net) (g : P n).
        Lower-Good person core nc_of findnick check_password n
          (revalidate person core nc_of findnick check_password b u n) es
          (revalidate-Lower person core nc_of findnick check_password b u n) g in
      if_cases P (same_text nick (net.nick u)) _ _
        (λ e. if_cases P is_sqlined _ _ (λ f. good_cased) (λ f. again false cased good_cased))
        (λ e. if_cases P is_sqlined _ _ (λ f. good_changed) (λ f. again _ changed good_changed))
    where
      still_free :
          (after : Net)
          → Lower net after
          → (o : Option ℕ) → IsFree person core nc_of findnick check_password net u o
          → IsFree person core nc_of findnick check_password after u o
      still_free after l none f = tt
      still_free after l (some a) f = λ v p. f v (ap (λ g. g v) (sym l.same_na) ∙ p)

      in_group :
          (o : Option ℕ)
          → net.na u ≡ o
          → (b : ℕ) → identified_at person core nc_of findnick check_password net o ≡ true
          → nc_at person core nc_of findnick check_password o ≡ nc_of b
          → earned person core nc_of findnick check_password es u (nc_of b) ≡ true
      in_group none e b i k = absurd (contradiction (sym i))
      in_group (some c) e b i k =
          let (v, (has, got)) = h c i in
          let one : v ≡ u = alone v u c has e in
          subst (λ w. earned person core nc_of findnick check_password es w (nc_of b) ≡ true) one
            (subst (λ nc. earned person core nc_of findnick check_password es v nc ≡ true) k got)
