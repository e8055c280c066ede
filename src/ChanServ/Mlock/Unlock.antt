-- ===== src/ChanServ/Mlock/Unlock.antt =====
-- chanserv.c `do_set_mlock`: what one entry of the modes behind a minus does to the lock.
use k9_chatnet.Common.{
  ℕ, ◌≡◌, refl, sym, ap, subst, ◌∙◌, inl, inr, true, false, none, ◌==◌, Bool-cases,
}
use k9_chatnet.Channel.{update}
use k9_chatnet.Channel.Modes.{Services, CbMode, no_value, set_key, set_limit}
use k9_chatnet.ChanServ.{ModeLock, cs_set_value}
use k9_chatnet.ChanServ.Check.Agreed.{never}
use k9_chatnet.ChanServ.Mlock.{lock_clear}
use k9_chatnet.ChanServ.Mlock.Entries.{
  IsLock, IsKind, update_clear, update_off, entry_of, cs_set_key-IsLock, cs_set_limit-IsLock,
}

module _ (svc : Services) where
  unlock_key :
      (c : ℕ) (ci : ModeLock)
      → ci.mlock_on 6 ≡ true
      → IsLock ci
      → IsLock (lock_clear svc (record { letter = c; flag = 6; setvalue = set_key }) ci)
  unfolding lock_clear cs_set_value
  unlock_key c ci on h = rw on (
      cs_set_key-IsLock svc none
        (record ci {
          mlock_on = update ci.mlock_on 6 false;
          mlock_off = update ci.mlock_off 6 true;
        })
        (λ f. update_clear ci.mlock_on ci.mlock_off 6 f (h.apart f)) h.values.1 h.registered)

  unlock_limit :
      (c : ℕ) (ci : ModeLock)
      → ci.mlock_on 7 ≡ true
      → IsLock ci
      → IsLock (lock_clear svc (record { letter = c; flag = 7; setvalue = set_limit }) ci)
  unfolding lock_clear cs_set_value
  unlock_limit c ci on h = rw on (
      cs_set_limit-IsLock svc none
        (record ci {
          mlock_on = update ci.mlock_on 7 false;
          mlock_off = update ci.mlock_off 7 true;
        })
        (λ f. update_clear ci.mlock_on ci.mlock_off 7 f (h.apart f)) h.values.0 h.registered)

  unlock_plain :
      (c g : ℕ) (ci : ModeLock)
      → ci.mlock_on g ≡ true
      → (6 == g) ≡ false
      → (7 == g) ≡ false
      → (9 == g) ≡ false
      → IsLock ci
      → IsLock (lock_clear svc (record { letter = c; flag = g; setvalue = no_value }) ci)
  unfolding lock_clear cs_set_value
  unlock_plain c g ci on six seven nine h = rw on (record {
    apart = λ f. update_clear ci.mlock_on ci.mlock_off g f (h.apart f);
    values = (λ e. h.values.0 (sym (rw six refl) ∙ e), λ e. h.values.1 (sym (rw seven refl) ∙ e));
    registered = rw nine h.registered;
  })

  not_locked :
      (m : CbMode) (ci : ModeLock)
      → ci.mlock_on m.flag ≡ false
      → IsLock ci
      → IsLock (lock_clear svc m ci)
  unfolding lock_clear
  not_locked m ci on h = rw on (record {
    apart = λ f. update_off ci.mlock_on ci.mlock_off m.flag f on (h.apart f);
    values = h.values;
    registered = h.registered;
  })

  pub lock_clear-IsLock :
      (m : CbMode) (ci : ModeLock)
      → IsKind m
      → (m.letter == b'r') ≡ false
      → IsLock ci
      → IsLock (lock_clear svc m ci)
  lock_clear-IsLock m ci kind other h = elim (Bool-cases (ci.mlock_on m.flag)) [
    | inr on ↦ not_locked m ci on h
    | inl on ↦ elim kind [
      | inl r ↦ never (sym other ∙ r)
      | inr (inl (v, six, seven, nine)) ↦
          subst (λ n. IsLock (lock_clear svc n ci)) (sym (entry_of m no_value m.flag v refl))
            (unlock_plain m.letter m.flag ci on six seven nine h)
      | inr (inr (inl (v, f))) ↦
          subst (λ n. IsLock (lock_clear svc n ci)) (sym (entry_of m set_key 6 v f))
            (unlock_key m.letter ci (sym (ap ci.mlock_on f) ∙ on) h)
      | inr (inr (inr (v, f))) ↦
          subst (λ n. IsLock (lock_clear svc n ci)) (sym (entry_of m set_limit 7 v f))
            (unlock_limit m.letter ci (sym (ap ci.mlock_on f) ∙ on) h)
    ]
  ]
