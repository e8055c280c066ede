-- ===== src/ChanServ/Access/Change/Steps.antt =====
-- chanserv.c: what the tests of the access commands let through, and the entries that are added and changed.
use k9_chatnet.Common.{
  if_cases, ℕ, ◌≡◌, ◌⊎◌, refl, sym, ap, ◌∙◌, inl, inr, Bool, false, ◌&&◌, ◌||◌, not, List, [], ◌∷◌,
  ◌++◌, Bytes, Option, none, some, ◌==◌, ==_iff, ltb, if◌then◌else◌, length, Bool-cases,
  Option-cases,
}
use k9_chatnet.Common.Int.{ℤ, pos, ltb_ℤ, leb_ℤ}
use k9_chatnet.ChanServ.Access.{
  ChanAccess, ChannelInfo, NickAlias, User, access_founder, access_invalid, eq_ℤ, get_access,
  get_access_entry, check_access, touch,
}
use k9_chatnet.ChanServ.Access.Change.{
  forbidden, access_denied, disabled, refused, level_nonzero, level_range, nick_forbidden,
  permission_denied, already_added, reached_limit, added, unchanged, changed, not_already_added,
  Setting, Outcome, tell, entry_of, put_free, has_free, set_level, first_notices, add_for, mod_for,
  with_nick, checked,
}
use k9_chatnet.ChanServ.Access.Change.Entries.{
  new_entry, Replaced, get_access_entry-put_free, get_access_entry-append, set_level-entry,
  get_access_entry-none, get_access_entry-unused,
}
use k9_chatnet.ChanServ.Access.{is_allowed}

-- The level of the entry, if there is one, is below `ulev`.
abbrev pub IsBelow : ℤ → Option ChanAccess → Type 0
IsBelow ulev none = Unit
IsBelow ulev (some a) = leb_ℤ ulev a.level ≡ false

-- From `ci` to `after` only entries below the user's level have changed, to entries below it.
abbrev pub OnlyBelow : User → ChannelInfo → ChannelInfo → Type 0
OnlyBelow u ci after =
    (m : ℕ)
    → (get_access_entry m after.access ≡ get_access_entry m ci.access)
      ⊎ (IsBelow (get_access u ci) (get_access_entry m ci.access)
          × IsBelow (get_access u ci) (get_access_entry m after.access))

-- Behind the notices the channel is the same but for its last use.
pub first_notices-ci :
    (st : Setting) (u : User) (ci : ChannelInfo) (P : ChannelInfo → Type 0)
    → P ci
    → P (record ci { last_used = st.now })
    → P (first_notices st u ci).ci
unfolding first_notices check_access touch
first_notices-ci st u ci P h k =
    let after = touch st.now (get_access u ci) ci in
    let touched : P after =
      if_cases P (ltb_ℤ (pos 0) (get_access u ci)) (record ci { last_used = st.now }) ci (λ e. k)
        (λ e. h) in
    let may = is_allowed 11 (get_access u ci) ci in
    if_cases (λ (o : Outcome). P o.ci) ci.is_verboten (tell forbidden ci)
      (if not may && not st.is_servadmin
        then tell access_denied after
        else record { replies = []; ci = after })
      (λ e. h)
      (λ e.
        if_cases (λ (o : Outcome). P o.ci) (not may && not st.is_servadmin)
          (tell access_denied after) (record { replies = []; ci = after }) (λ f. touched)
          (λ f. touched))

module _ (st : Setting) (u : User) (ordinary : st.is_servadmin ≡ false) where
  -- Nobody else than a services administrator gets past a test of levels.
  pub lower : (b : Bool) → (not st.is_servadmin && b) ≡ false → b ≡ false
  lower b e = ap (λ (a : Bool). not a && b) (sym ordinary) ∙ e

  with_nick-ci :
      (go : ℕ → Outcome) (ci : ChannelInfo) (o : Option NickAlias) (P : ChannelInfo → Type 0)
      → P ci
      → ((nc : ℕ) → P (go nc).ci)
      → P (with_nick st u go ci o).ci
  with_nick-ci go ci none P h k = h
  with_nick-ci go ci (some na) P h k =
      if_cases (λ (o : Outcome). P o.ci) na.is_verboten (tell nick_forbidden ci) (go na.nc) (λ e. h)
        (λ e. k na.nc)

  -- The tests: a word, or what follows them.
  pub checked-ci :
      (go : ℕ → ℤ → ℤ → ChannelInfo → Option ChanAccess → Outcome) (level : ℤ) (nick : Bytes)
      (ci : ChannelInfo) (P : ChannelInfo → Type 0)
      → P ci
      → ((nc : ℕ)
          → leb_ℤ (get_access u ci) level ≡ false
          → P (go nc level (get_access u ci) ci (entry_of nc ci.access)).ci)
      → P (checked st u go level nick ci).ci
  unfolding checked
  checked-ci go level nick ci P h k =
      let Q : Outcome → Type 0 = λ o. P o.ci in
      let ulev = get_access u ci in
      let last =
        with_nick st u (λ (nc : ℕ). go nc level ulev ci (entry_of nc ci.access)) ci
          (st.find nick) in
      let ranged =
        if leb_ℤ level access_invalid || leb_ℤ access_founder level
        then tell level_range ci
        else last in
      let nonzero = if eq_ℤ level (pos 0) then tell level_nonzero ci else ranged in
      let below = if not st.is_servadmin && leb_ℤ ulev level then tell refused ci else nonzero in
      if_cases Q st.readonly (tell disabled ci) below (λ e. h)
        (λ e.
          if_cases Q (not st.is_servadmin && leb_ℤ ulev level) (tell refused ci) nonzero (λ e. h)
            (λ low.
              if_cases Q (eq_ℤ level (pos 0)) (tell level_nonzero ci) ranged (λ e. h)
                (λ e.
                  if_cases Q (leb_ℤ level access_invalid || leb_ℤ access_founder level)
                    (tell level_range ci) last (λ e. h)
                    (λ e.
                      with_nick-ci (λ (nc : ℕ). go nc level ulev ci (entry_of nc ci.access)) ci
                        (st.find nick) P h (λ nc. k nc (lower (leb_ℤ ulev level) low))))))

  abbrev pub Step : ℕ → ChannelInfo → ChannelInfo → Type 0
  Step m ci after =
      (get_access_entry m after.access ≡ get_access_entry m ci.access)
      ⊎ (IsBelow (get_access u ci) (get_access_entry m ci.access)
          × IsBelow (get_access u ci) (get_access_entry m after.access))

  -- A new entry.
  placed :
      (m nc : ℕ) (level : ℤ) (ci : ChannelInfo) (l : List ChanAccess)
      → leb_ℤ (get_access u ci) level ≡ false
      → entry_of nc ci.access ≡ none
      → get_access_entry m l
        ≡ (if nc == m then some (new_entry nc level) else get_access_entry m ci.access)
      → Step m ci (record ci { access = l })
  placed m nc level ci l low missing e = elim (Bool-cases (nc == m)) [
    | inr other ↦ inl (e ∙ rw other refl)
    | inl own ↦ inr (
      rw⁻¹ ((==_iff nc m).0 own) (rw (get_access_entry-none nc ci.access missing) tt),
      rw (e, own) low,
    )
  ]

  pub add_for-OnlyBelow :
      (nc : ℕ) (level : ℤ) (ci : ChannelInfo)
      → leb_ℤ (get_access u ci) level ≡ false
      → OnlyBelow u ci (add_for st u nc level (get_access u ci) ci (entry_of nc ci.access)).ci
  add_for-OnlyBelow nc level ci low m = elim (Option-cases (entry_of nc ci.access)) [
    | inr (a, e) ↦ rw e (
        if_cases (λ (o : Outcome). Step m ci o.ci)
          (not st.is_servadmin && leb_ℤ (get_access u ci) a.level) (tell permission_denied ci)
          (tell already_added ci) (λ f. inl refl) (λ f. inl refl))
    | inl e ↦ rw e (elim (Option-cases (put_free (new_entry nc level) ci.access)) [
      | inr (l, put) ↦
          rw put
            (placed m nc level ci l low e (get_access_entry-put_free nc m level ci.access l e put))
      | inl full ↦ rw full (
          if_cases (λ (o : Outcome). Step m ci o.ci) (ltb (length ci.access) st.max)
            (tell added (record ci { access = ci.access ++ new_entry nc level ∷ [] }))
            (tell reached_limit ci)
            (λ room.
              placed m nc level ci (ci.access ++ new_entry nc level ∷ []) low e
                (get_access_entry-append nc m level ci.access e))
            (λ room. inl refl))
    ])
  ]

  pub Replaced-Step :
      (m : ℕ) (ci : ChannelInfo) (l : List ChanAccess) (a : ChanAccess) (new : Option ChanAccess)
      → leb_ℤ (get_access u ci) a.level ≡ false
      → IsBelow (get_access u ci) new
      → Replaced (get_access_entry m ci.access) (get_access_entry m l) a new
      → Step m ci (record ci { access = l })
  Replaced-Step m ci l a new low below (inl e) = inl e
  Replaced-Step m ci l a new low below (inr (before, after)) = inr (rw before low, rw after below)

  pub mod_for-OnlyBelow :
      (nc : ℕ) (level : ℤ) (ci : ChannelInfo)
      → st.fresh.in_use ≡ false
      → leb_ℤ (get_access u ci) level ≡ false
      → OnlyBelow u ci (mod_for st u nc level (get_access u ci) ci (entry_of nc ci.access)).ci
  mod_for-OnlyBelow nc level ci unused low m = elim (Option-cases (entry_of nc ci.access)) [
    | inr (a, e) ↦
        let new = record ci { access = set_level nc level ci.access } in
        let differs : Outcome =
          if eq_ℤ a.level level then tell unchanged ci else tell changed new in
        rw e (
          if_cases (λ (o : Outcome). Step m ci o.ci)
            (not st.is_servadmin && leb_ℤ (get_access u ci) a.level) (tell permission_denied ci)
            differs (λ f. inl refl)
            (λ f.
              if_cases (λ (o : Outcome). Step m ci o.ci) (eq_ℤ a.level level) (tell unchanged ci)
                (tell changed new) (λ g. inl refl)
                (λ g.
                  Replaced-Step m ci (set_level nc level ci.access) a
                    (some (record a { level = level })) (lower (leb_ℤ (get_access u ci) a.level) f)
                    low (set_level-entry nc m level ci.access a e))))
    | inl e ↦
        let grown = tell not_already_added (record ci { access = ci.access ++ st.fresh ∷ [] }) in
        let full = if ltb (length ci.access) st.max then grown else tell reached_limit ci in
        rw e (
          if_cases (λ (o : Outcome). Step m ci o.ci) (has_free ci.access)
            (tell not_already_added ci) full (λ f. inl refl)
            (λ f.
              if_cases (λ (o : Outcome). Step m ci o.ci) (ltb (length ci.access) st.max) grown
                (tell reached_limit ci)
                (λ g. inl (get_access_entry-unused m st.fresh ci.access unused)) (λ g. inl refl)))
  ]
