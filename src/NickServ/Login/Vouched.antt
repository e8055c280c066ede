-- ===== src/NickServ/Login/Vouched.antt =====
-- nickserv.c and users.c: nobody is identified who has not given a password.
use k9_chatnet.Common.{
  ℕ, ◌≡◌, ◌⊎◌, refl, sym, ap, ◌∙◌, subst, inl, inr, Bool, true, false, ◌||◌, not, List, Bytes,
  Option, none, some, ◌==◌, ==_iff, Bool-cases, if_cases,
}
use k9_chatnet.Common.Int.{ℤ}
use k9_chatnet.User.{User}
use k9_chatnet.NickServ.Access.{is_on_access}
use k9_chatnet.NickServ.Login.{
  Status, Core, Net, cancelled, with_status, on_alias, cancel_user, validate_user, validated,
  or_status, identified_at, recognized_at, revalidate, rename,
}
use k9_chatnet.NickServ.Login.Flags.{
  Lower, Lower-same, with_status-Lower, on_alias-Lower, Lowers-validated, Lowers-cancelled,
  cancelled_identified,
}
use k9_chatnet.NickServ.Login.Earned.{Event, earned, IsFree}

pub nothing_there : (k : ℕ) → none ≡ some k → ⊥
nothing_there k e = cc

pub contradiction : true ≡ false → ⊥
contradiction e = cc

or_cases : (a b : Bool) → (a || b) ≡ true → (a ≡ true) ⊎ (b ≡ true)
or_cases true b h = inl refl
or_cases false b h = inr h

module _ (person : ℕ → User) (core : ℕ → Core) (nc_of : ℕ → ℕ) (findnick : Bytes → Option ℕ)
    (check_password : Bytes → Bytes → ℤ) where
  -- A user who has the record, and has earned it.
  abbrev pub Voucher : Net → List Event → ℕ → ℕ → Type 0
  Voucher net es a v =
      (net.na v ≡ some a) × (earned person core nc_of findnick check_password es v (nc_of a) ≡ true)

  -- Whose record is identified, has earned it.
  abbrev pub Vouched : Net → List Event → Type 0
  Vouched net es = (a : ℕ) → (net.status a).is_identified ≡ true → (v : ℕ) × Voucher net es a v

  abbrev pub Alone : Net → Type 0
  Alone net = (u v a : ℕ) → net.na u ≡ some a → net.na v ≡ some a → u ≡ v

  -- The same without the user `u`.
  abbrev pub Rest : Net → List Event → ℕ → Type 0
  Rest net es u =
      (a : ℕ)
      → (net.status a).is_identified ≡ true
      → (v : ℕ) × ((v == u) ≡ false) × Voucher net es a v

  pub Lower-Vouched :
      (net net' : Net) (es : List Event) → Lower net net' → Vouched net es → Vouched net' es
  Lower-Vouched net net' es l h a i =
      let (v, (has, got)) = h a (l.lower a i) in (v, (ap (λ f. f v) l.same_na ∙ has, got))

  pub Lower-Alone : (net net' : Net) → Lower net net' → Alone net → Alone net'
  Lower-Alone net net' l h u v a p q =
      h u v a (sym (ap (λ f. f u) l.same_na) ∙ p) (sym (ap (λ f. f v) l.same_na) ∙ q)

  pub cancel_user-Lower : (u : ℕ) (net : Net) → Lower net (cancel_user u net)
  unfolding cancel_user
  cancel_user-Lower u net =
      on_alias-Lower (net.na u) (λ a. with_status a cancelled) net
        (λ a. with_status-Lower a cancelled net Lowers-cancelled)

  pub validate_user-Lower :
      (u : ℕ) (net : Net)
      → Lower net (validate_user person core nc_of findnick check_password u net)
  unfolding validate_user
  validate_user-Lower u net =
      let f : ℕ → Status → Status =
        λ a. validated (core (nc_of a)) (is_on_access (person u) (core (nc_of a)).access) in
      on_alias-Lower (net.na u) (λ a. with_status a (f a)) net
        (λ a.
          with_status-Lower a (f a) net
            (Lowers-validated (core (nc_of a)) (is_on_access (person u) (core (nc_of a)).access)))

  pub revalidate-Lower :
      (b : Bool) (u : ℕ) (net : Net)
      → Lower net (revalidate person core nc_of findnick check_password b u net)
  revalidate-Lower b u net =
      if_cases (λ n. Lower net n)
        (b
          || not (
              identified_at person core nc_of findnick check_password net (net.na u)
              || recognized_at person core nc_of findnick check_password net (net.na u)))
        _ _ (λ e. validate_user-Lower u net) (λ e. Lower-same net)

  -- Behind `cancel_user` the user vouches for nothing.
  pub cancel_user-Rest :
      (u : ℕ) (net : Net) (es : List Event) → Vouched net es → Rest (cancel_user u net) es u
  unfolding cancel_user
  cancel_user-Rest u net es h = go (net.na u) refl
    where
      go : (o : Option ℕ) → net.na u ≡ o → Rest (on_alias o (λ a. with_status a cancelled) net) es u
      go none e a i =
          let (v, (has, got)) = h a i in
          elim (Bool-cases (v == u)) [
            | inr other ↦ (v, other, (has, got))
            | inl own ↦
                absurd (nothing_there a (sym e ∙ ap net.na (sym ((==_iff v u).0 own)) ∙ has))
          ]
      go (some b) e a i = elim (Bool-cases (a == b)) [
        | inl here ↦ absurd (contradiction (sym i ∙ rw here (cancelled_identified (net.status b))))
        | inr there ↦
            let (v, (has, got)) = h a (sym (rw there refl) ∙ i) in
            elim (Bool-cases (v == u)) [
              | inr other ↦ (v, other, (has, got))
              | inl own ↦
                  let both : some b ≡ some a = sym e ∙ ap net.na (sym ((==_iff v u).0 own)) ∙ has in
                  let same : (a == b) ≡ true = (==_iff a b).1 cc in
                  absurd (contradiction (sym same ∙ there))
            ]
      ]

  pub Rest-Vouched :
      (net : Net) (es es' : List Event) (u : ℕ)
      → ((v nc : ℕ)
          → (v == u) ≡ false
          → earned person core nc_of findnick check_password es v nc ≡ true
          → earned person core nc_of findnick check_password es' v nc ≡ true)
      → Rest net es u
      → Vouched net es'
  Rest-Vouched net es es' u more h a i =
      let (v, other, (has, got)) = h a i in (v, (has, more v (nc_of a) other got))

  -- A record that a user has, and has earned, is identified.
  pub raise-Vouched :
      (net : Net) (es : List Event) (u b : ℕ) (flag rec : Bool)
      → net.na u ≡ some b
      → (flag ≡ true → earned person core nc_of findnick check_password es u (nc_of b) ≡ true)
      → Vouched net es
      → Vouched (with_status b (or_status flag rec) net) es
  raise-Vouched net es u b flag rec has got h a i = elim (Bool-cases (a == b)) [
    | inr there ↦ h a (sym (rw there refl) ∙ i)
    | inl here ↦
        let at : a ≡ b = (==_iff a b).0 here in
        let set : ((net.status b).is_identified || flag) ≡ true = sym (rw here refl) ∙ i in
        subst (λ k. (v : ℕ) × Voucher net es k v) (sym at)
          (elim (or_cases (net.status b).is_identified flag set) [
            | inl before ↦ h b before
            | inr now ↦ (u, (has, got now))
          ])
  ]

  pub rename-Rest :
      (net : Net) (es : List Event) (u : ℕ) (nick : Bytes)
      → Rest net es u
      → Rest (rename person core nc_of findnick check_password u nick net) es u
  rename-Rest net es u nick h a i =
      let (v, other, (has, got)) = h a i in (v, other, (rw other has, got))

  pub rename-Alone :
      (net : Net) (u : ℕ) (nick : Bytes)
      → Alone net
      → IsFree person core nc_of findnick check_password net u (findnick nick)
      → Alone (rename person core nc_of findnick check_password u nick net)
  rename-Alone net u nick alone free v w a p q = elim (Bool-cases (v == u)) [
    | inl vu ↦ elim (Bool-cases (w == u)) [
      | inl wu ↦ (==_iff v u).0 vu ∙ sym ((==_iff w u).0 wu)
      | inr wo ↦
          let new : findnick nick ≡ some a = sym (rw vu refl) ∙ p in
          let old : net.na w ≡ some a = sym (rw wo refl) ∙ q in
          absurd (contradiction (sym ((==_iff w u).1 (only (findnick nick) new free w old)) ∙ wo))
    ]
    | inr vo ↦ elim (Bool-cases (w == u)) [
      | inl wu ↦
          let new : findnick nick ≡ some a = sym (rw wu refl) ∙ q in
          let old : net.na v ≡ some a = sym (rw vo refl) ∙ p in
          absurd (contradiction (sym ((==_iff v u).1 (only (findnick nick) new free v old)) ∙ vo))
      | inr wo ↦ alone v w a (sym (rw vo refl) ∙ p) (sym (rw wo refl) ∙ q)
    ]
  ]
    where
      only :
          (o : Option ℕ)
          → o ≡ some a
          → IsFree person core nc_of findnick check_password net u o
          → (k : ℕ) → net.na k ≡ some a
          → k ≡ u
      only none e free k h = absurd (nothing_there a e)
      only (some b) e free k h = free k (h ∙ sym e)
