-- ===== src/ChanServ/Access/Change/Authority.antt =====
-- chanserv.c: whose entries the access commands change.
use k9_chatnet.Common.{
  if_cases, ℕ, zero, suc, ◌≡◌, refl, sym, subst, ◌∙◌, inl, inr, false, Bool-cases, Option-cases,
  get_elem?, peek, ◌&&◌, not, Bytes, Option, none, some, ◌==◌, if◌then◌else◌, length,
}
use k9_chatnet.Common.Int.{ℤ, leb_ℤ}
use k9_chatnet.Text.Number.{strtol_int, is_digit, Progress, process_numlist}
use k9_chatnet.Text.Number.Kept.{Ends, process_numlist-keeps}
use k9_chatnet.ChanServ.Access.{
  ChanAccess, ChannelInfo, NickAlias, User, get_access, get_access_entry, is_founder, is_identified,
}
use k9_chatnet.ChanServ.Access.Change.{
  disabled, refused, list_empty, deleted, Setting, Outcome, Command, adduser, moduser, remuser,
  run_command, tell, entry_of, free_entry, to_short, add_for, mod_for, checked, do_adduser,
  do_moduser, do_remuser, Removal, free_place, all_item_bytes, access_del_callback, after_list,
  rem_list, rem_for, rem_nick, rem_checked,
}
use k9_chatnet.ChanServ.Access.Change.Entries.{
  Unique, Replaced, free_entry-entry, free_place-entry, free_place-Unique,
}
use k9_chatnet.ChanServ.Access.Change.Steps.{
  IsBelow, OnlyBelow, first_notices-ci, lower, checked-ci, Step, add_for-OnlyBelow, Replaced-Step,
  mod_for-OnlyBelow,
}

module _ (st : Setting) (u : User) (ordinary : st.is_servadmin ≡ false) where
  rem_for-Step :
      (m nc : ℕ) (ci : ChannelInfo) (o : Option ChanAccess)
      → entry_of nc ci.access ≡ o
      → Unique ci.access
      → Step st u ordinary m ci (rem_for st u nc ci o).ci
  rem_for-Step m nc ci none e unique = inl refl
  rem_for-Step m nc ci (some a) e unique =
      if_cases (λ (o : Outcome). Step st u ordinary m ci o.ci)
        (not st.is_servadmin && leb_ℤ (get_access u ci) a.level) (tell refused ci)
        (tell deleted (record ci { access = free_entry nc ci.access })) (λ f. inl refl)
        (λ f.
          Replaced-Step st u ordinary m ci (free_entry nc ci.access) a none
            (lower st u ordinary (leb_ℤ (get_access u ci) a.level) f) tt
            (free_entry-entry nc m ci.access a unique e))

  rem_nick-Step :
      (m : ℕ) (ci : ChannelInfo) (o : Option NickAlias)
      → Unique ci.access
      → Step st u ordinary m ci (rem_nick st u ci o).ci
  rem_nick-Step m ci none unique = inl refl
  rem_nick-Step m ci (some na) unique =
      rem_for-Step m na.nc ci (entry_of na.nc ci.access) refl unique

  -- What each call of the callback keeps.
  abbrev Kept : ChannelInfo → Removal → Type 0
  Kept ci d = Unique d.ci.access × OnlyBelow u ci d.ci

  then_freed :
      (m i : ℕ) (ci now : ChannelInfo) (a : ChanAccess)
      → leb_ℤ (get_access u ci) a.level ≡ false
      → Step st u ordinary m ci now
      → Replaced
          (get_access_entry m now.access)
          (get_access_entry m (free_place i now.access))
          a
          none
      → Step st u ordinary m ci (record now { access = free_place i now.access })
  then_freed m i ci now a low (inl e) (inl f) = inl (f ∙ e)
  then_freed m i ci now a low (inl e) (inr (before, after)) =
      inr (subst (IsBelow (get_access u ci)) (sym (sym e ∙ before)) low, rw after tt)
  then_freed m i ci now a low (inr (b, c)) (inl f) =
      inr (b, subst (IsBelow (get_access u ci)) (sym f) c)
  then_freed m i ci now a low (inr (b, c)) (inr (before, after)) = inr (b, rw after tt)

  callback-Kept :
      (ci : ChannelInfo) (d : Removal) (n : ℕ)
      → Kept ci d
      → Kept ci (access_del_callback st u (get_access u ci) d n).0
  unfolding access_del_callback
  callback-Kept ci d zero h = h
  callback-Kept ci d (suc i) (unique, below) = elim (Option-cases (get_elem? d.ci.access i)) [
    | inl past ↦ rw past (unique, below)
    | inr (a, at) ↦ rw at (elim (Bool-cases (not a.in_use)) [
      | inl unused ↦ rw unused (unique, below)
      | inr used ↦ elim (Bool-cases (not st.is_servadmin && leb_ℤ (get_access u ci) a.level)) [
        | inl denied ↦ rw (used, denied) (unique, below)
        | inr may ↦
            rw (used, may)
              (
                free_place-Unique i d.ci.access unique,
                λ m.
                    then_freed m i ci d.ci a
                      (lower st u ordinary (leb_ℤ (get_access u ci) a.level) may) (below m)
                      (free_place-entry i m d.ci.access a unique at),
              )
      ]
    ])
  ]

  after_list-OnlyBelow :
      (ci : ChannelInfo) (o : Option (Progress Removal))
      → Ends (Kept ci) o
      → OnlyBelow u ci (after_list st u ci o).ci
  after_list-OnlyBelow ci none h = λ m. inl refl
  after_list-OnlyBelow ci (some p) h = h.1

  rem_list-OnlyBelow :
      (nick : Bytes) (ci : ChannelInfo)
      → Unique ci.access
      → OnlyBelow u ci (rem_list st u nick ci).ci
  unfolding rem_list
  rem_list-OnlyBelow nick ci unique =
      let d : Removal = record { ci = ci; last = none; perm = 0 } in
      after_list-OnlyBelow ci (process_numlist (access_del_callback st u (get_access u ci)) d nick)
        (process_numlist-keeps (access_del_callback st u (get_access u ci)) (Kept ci)
          (callback-Kept ci) d nick (unique, λ m. inl refl))

  rem_checked-OnlyBelow :
      (nick : Bytes) (ci : ChannelInfo)
      → Unique ci.access
      → OnlyBelow u ci (rem_checked st u nick ci).ci
  unfolding rem_checked
  rem_checked-OnlyBelow nick ci unique m =
      let named = rem_nick st u ci (st.find nick) in
      let numbers = is_digit (peek nick) && all_item_bytes nick in
      let last = if numbers then rem_list st u nick ci else named in
      if_cases (λ (o : Outcome). Step st u ordinary m ci o.ci) st.readonly (tell disabled ci)
        (if length ci.access == 0 then tell list_empty ci else last) (λ e. inl refl)
        (λ e.
          if_cases (λ (o : Outcome). Step st u ordinary m ci o.ci) (length ci.access == 0)
            (tell list_empty ci) last (λ f. inl refl)
            (λ f.
              if_cases (λ (o : Outcome). Step st u ordinary m ci o.ci) numbers
                (rem_list st u nick ci) named (λ g. rem_list-OnlyBelow nick ci unique m)
                (λ g. rem_nick-Step m ci (st.find nick) unique)))

  adduser-OnlyBelow :
      (nick : Bytes) (level : ℤ) (ci : ChannelInfo)
      → OnlyBelow u ci (checked st u (add_for st u) level nick ci).ci
  adduser-OnlyBelow nick level ci =
      checked-ci st u ordinary (add_for st u) level nick ci (OnlyBelow u ci) (λ m. inl refl)
        (λ nc low. add_for-OnlyBelow st u ordinary nc level ci low)

  moduser-OnlyBelow :
      (nick : Bytes) (level : ℤ) (ci : ChannelInfo)
      → st.fresh.in_use ≡ false
      → OnlyBelow u ci (checked st u (mod_for st u) level nick ci).ci
  moduser-OnlyBelow nick level ci unused =
      checked-ci st u ordinary (mod_for st u) level nick ci (OnlyBelow u ci) (λ m. inl refl)
        (λ nc low. mod_for-OnlyBelow st u ordinary nc level ci unused low)

  -- A command ADDUSER, MODUSER or REMUSER, the last with a nick or with any list of numbers and ranges, of a user who is no
  -- services administrator changes at most entries whose level is below his own,
  -- and gives them a level below his own, for every group and whichever of the three commands
  -- it is: where no group has two entries, and where the memory of a new entry holds none that is in use.
  pub run_command-OnlyBelow :
      (c : Command) (ci : ChannelInfo)
      → Unique ci.access
      → st.fresh.in_use ≡ false
      → OnlyBelow u ci (run_command st u c ci).ci
  unfolding do_adduser do_moduser do_remuser get_access is_founder is_identified
  run_command-OnlyBelow (adduser nick s) ci unique unused =
      let level = to_short (strtol_int s).0 in
      first_notices-ci st u ci
        (λ after. OnlyBelow u ci (checked st u (add_for st u) level nick after).ci)
        (adduser-OnlyBelow nick level ci)
        (adduser-OnlyBelow nick level (record ci { last_used = st.now }))
  run_command-OnlyBelow (moduser nick s) ci unique unused =
      let level = to_short (strtol_int s).0 in
      first_notices-ci st u ci
        (λ after. OnlyBelow u ci (checked st u (mod_for st u) level nick after).ci)
        (moduser-OnlyBelow nick level ci unused)
        (moduser-OnlyBelow nick level (record ci { last_used = st.now }) unused)
  run_command-OnlyBelow (remuser nick) ci unique unused =
      first_notices-ci st u ci (λ after. OnlyBelow u ci (rem_checked st u nick after).ci)
        (rem_checked-OnlyBelow nick ci unique)
        (rem_checked-OnlyBelow nick (record ci { last_used = st.now }) unique)
