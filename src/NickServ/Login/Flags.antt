-- ===== src/NickServ/Login/Flags.antt =====
-- nickserv.c: operations on the status of a nick's record that identify nobody.
use k9_chatnet.Common.{
  ℕ, ◌≡◌, refl, inl, inr, Bool, true, false, ◌&&◌, not, Option, none, some, ◌==◌, ==_iff,
  if◌then◌else◌, Bool-cases, if_cases, sym, ◌∙◌, subst,
}
use k9_chatnet.NickServ.Login.{
  Status, Core, Net, cancelled, with_status, on_alias, collide, validated, log_out,
}

-- No record is identified that was not.
abbrev pub Lowers : (Status → Status) → Type 0
Lowers f = (s : Status) → (f s).is_identified ≡ true → s.is_identified ≡ true

pub cancelled_identified : (s : Status) → (cancelled s).is_identified ≡ false
unfolding cancelled
cancelled_identified s =
    if_cases (λ (t : Status). t.is_identified ≡ false) s.is_guested _ _ (λ e. refl) (λ e. refl)

pub Lowers-cancelled : Lowers cancelled
Lowers-cancelled s h = let e = cancelled_identified s in cc

pub Lowers-log_out : Lowers log_out
Lowers-log_out s h = cc

validated_identified :
    (nc : Core) (on_access : Bool) (s : Status)
    → (validated nc on_access s).is_identified ≡ s.is_identified
unfolding validated
validated_identified nc on_access s =
    let P : Status → Type 0 = λ t. t.is_identified ≡ s.is_identified in
    let listed = if on_access then record s { is_on_list = true } else s in
    let same : P listed = if_cases P on_access _ _ (λ e. refl) (λ e. refl) in
    if_cases P s.is_verboten (collide s) _ (λ e. refl)
      (λ e.
        if_cases P (not nc.is_secure && on_access) (record listed { is_recognized = true }) _
          (λ f. same)
          (λ f.
            if_cases P (nc.is_kill_protected && not on_access && nc.is_kill_immed) (collide listed)
              listed (λ g. same) (λ g. same)))

pub Lowers-validated : (nc : Core) (on_access : Bool) → Lowers (validated nc on_access)
Lowers-validated nc on_access s h = sym (validated_identified nc on_access s) ∙ h

-- The same for all records, with the users' records as they were.
pub record Lower (net net' : Net) : Type 0 where
  pub same_na : net'.na ≡ net.na
  pub lower : (a : ℕ) → (net'.status a).is_identified ≡ true → (net.status a).is_identified ≡ true

pub Lower-same : (net : Net) → Lower net net
Lower-same net = record { same_na = refl; lower = λ a h. h }

pub Lower-trans : (x y z : Net) → Lower x y → Lower y z → Lower x z
Lower-trans x y z p q = record {
  same_na = q.same_na ∙ p.same_na;
  lower = λ a h. p.lower a (q.lower a h);
}

pub with_status-Lower :
    (a : ℕ) (f : Status → Status) (net : Net) → Lowers f → Lower net (with_status a f net)
with_status-Lower a f net lowers = record {
  same_na = refl;
  lower = λ k h. elim (Bool-cases (k == a)) [
    | inl here ↦
        let e : (f (net.status a)).is_identified ≡ true = sym (rw here refl) ∙ h in
        subst (λ j. (net.status j).is_identified ≡ true) (sym ((==_iff k a).0 here))
          (lowers (net.status a) e)
    | inr there ↦ sym (rw there refl) ∙ h
  ];
}

pub on_alias-Lower :
    (o : Option ℕ) (f : ℕ → Net → Net) (net : Net)
    → ((a : ℕ) → Lower net (f a net))
    → Lower net (on_alias o f net)
on_alias-Lower none f net h = Lower-same net
on_alias-Lower (some a) f net h = h a
