-- ===== src/ChanServ/Mlock/Entries.antt =====
-- chanserv.c `do_set_mlock`: what one entry of the modes does to the lock.
use k9_chatnet.Common.{
  arith, ap₂, ℕ, ◌≡◌, ◌≢◌, ◌⊎◌, refl, sym, subst, ◌∙◌, inl, inr, Bool, true, false, ◌&&◌, Bytes,
  Option, none, some, ◌==◌, ==_iff, Bool-cases, All,
}
use k9_chatnet.Channel.{update}
use k9_chatnet.Channel.Modes.{Services, CbMode, SetValue, no_value, set_key, set_limit, cbmodes}
use k9_chatnet.ChanServ.{to_mlock_limit, ModeLock, is_key, cs_set_key, cs_set_limit, cs_set_value}
use k9_chatnet.ChanServ.Check.Replay.{HasValues}
use k9_chatnet.ChanServ.Check.Agreed.{never}
use k9_chatnet.ChanServ.Mlock.{Locking, first_of, lock_set}

-- No mode is locked on and off at once, a locked key and a locked limit have their values, and the
-- channel keeps the mode r.
pub record IsLock (ci : ModeLock) : Type 0 where
  pub apart : (f : ℕ) → (ci.mlock_on f && ci.mlock_off f) ≡ false
  pub values : HasValues ci
  pub registered : ci.mlock_on 9 ≡ true

-- Which entries have a value, and that of r.
abbrev pub IsKind : CbMode → Type 0
IsKind m =
    ((m.letter == b'r') ≡ true)
    ⊎ (((m.setvalue ≡ no_value)
          × ((6 == m.flag) ≡ false)
          × ((7 == m.flag) ≡ false)
          × ((9 == m.flag) ≡ false))
        ⊎ ((m.setvalue ≡ set_key) × (m.flag ≡ 6))
        ⊎ ((m.setvalue ≡ set_limit) × (m.flag ≡ 7)))

pub cbmodes-IsKind : All IsKind cbmodes
unfolding cbmodes
cbmodes-IsKind = (
  inr (inl (refl, refl, refl, refl)),
  (
    inr (inl (refl, refl, refl, refl)),
    (
      inr (inl (refl, refl, refl, refl)),
      (
        inr (inl (refl, refl, refl, refl)),
        (
          inr (inl (refl, refl, refl, refl)),
          (
            inr (inr (inl (refl, refl))),
            (
              inr (inr (inr (refl, refl))),
              (
                inr (inl (refl, refl, refl, refl)),
                (
                  inr (inl (refl, refl, refl, refl)),
                  (
                    inr (inl (refl, refl, refl, refl)),
                    (
                      inl refl,
                      (
                        inr (inl (refl, refl, refl, refl)),
                        (inr (inl (refl, refl, refl, refl)), tt),
                      ),
                    ),
                  ),
                ),
              ),
            ),
          ),
        ),
      ),
    ),
  ),
)

update_set :
    (on off : ℕ → Bool) (g f : ℕ)
    → (on f && off f) ≡ false
    → (update on g true f && update off g false f) ≡ false
update_set on off g f h = elim (Bool-cases (f == g)) [
  | inl here ↦ rw here refl
  | inr there ↦ rw there h
]

update_drop :
    (on off : ℕ → Bool) (g f : ℕ) → (on f && off f) ≡ false → (update on g false f && off f) ≡ false
update_drop on off g f h = elim (Bool-cases (f == g)) [
  | inl here ↦ rw here refl
  | inr there ↦ rw there h
]

pub update_clear :
    (on off : ℕ → Bool) (g f : ℕ)
    → (on f && off f) ≡ false
    → (update on g false f && update off g true f) ≡ false
update_clear on off g f h = elim (Bool-cases (f == g)) [
  | inl here ↦ rw here refl
  | inr there ↦ rw there h
]

pub update_off :
    (on off : ℕ → Bool) (g f : ℕ)
    → on g ≡ false
    → (on f && off f) ≡ false
    → (on f && update off g true f) ≡ false
update_off on off g f e h = elim (Bool-cases (f == g)) [
  | inl here ↦ rw (here, (==_iff f g).0 here, e) refl
  | inr there ↦ rw there h
]

pub entry_of :
    (m : CbMode) (v : SetValue) (f : ℕ)
    → m.setvalue ≡ v
    → m.flag ≡ f
    → m ≡ record { letter = m.letter; flag = f; setvalue = v }
entry_of m v f e g =
    ap₂ (λ (x : ℕ) (y : SetValue). record { letter = m.letter; flag = x; setvalue = y }) g e

not_zero : (n : ℕ) → (n == 0) ≡ false → n ≢ 0
not_zero n e = ground arith

module _ (svc : Services) where
  -- The key: the other parts of the lock are kept.
  pub cs_set_key-IsLock :
      (o : Option Bytes) (ci : ModeLock)
      → ((f : ℕ) → (ci.mlock_on f && ci.mlock_off f) ≡ false)
      → (ci.mlock_on 7 ≡ true → ci.mlock_limit ≢ 0)
      → ci.mlock_on 9 ≡ true
      → IsLock (cs_set_key o ci)
  unfolding cs_set_key
  cs_set_key-IsLock none ci a l r = record {
    apart = λ f. update_drop ci.mlock_on ci.mlock_off 6 f (a f);
    values = (λ e. never e, l);
    registered = r;
  }
  cs_set_key-IsLock (some v) ci a l r = elim (Bool-cases (is_key v)) [
    | inl ok ↦ rw ok (record { apart = a; values = (λ e. (v, refl), l); registered = r })
    | inr bad ↦ rw bad (record {
      apart = λ f. update_drop ci.mlock_on ci.mlock_off 6 f (a f);
      values = (λ e. never e, l);
      registered = r;
    })
  ]

  pub cs_set_limit-IsLock :
      (o : Option Bytes) (ci : ModeLock)
      → ((f : ℕ) → (ci.mlock_on f && ci.mlock_off f) ≡ false)
      → (ci.mlock_on 6 ≡ true → (v : Bytes) × (ci.mlock_key ≡ some v))
      → ci.mlock_on 9 ≡ true
      → IsLock (cs_set_limit svc o ci)
  unfolding cs_set_limit
  cs_set_limit-IsLock o ci a k r = elim (Bool-cases (to_mlock_limit svc o == 0)) [
    | inl zero_limit ↦ rw zero_limit (record {
      apart = λ f. update_drop ci.mlock_on ci.mlock_off 7 f (a f);
      values = (k, λ e. never e);
      registered = r;
    })
    | inr given ↦ rw given (record {
      apart = a;
      values = (k, λ e. not_zero (to_mlock_limit svc o) given);
      registered = r;
    })
  ]

  set_key_entry :
      (c : ℕ) (k : Locking)
      → IsLock k.ci
      → IsLock (lock_set svc (record { letter = c; flag = 6; setvalue = set_key }) k).ci
  unfolding lock_set cs_set_value
  set_key_entry c k h =
      cs_set_key-IsLock (first_of k.args)
        (record k.ci {
          mlock_on = update k.ci.mlock_on 6 true;
          mlock_off = update k.ci.mlock_off 6 false;
        })
        (λ f. update_set k.ci.mlock_on k.ci.mlock_off 6 f (h.apart f)) h.values.1 h.registered

  set_limit_entry :
      (c : ℕ) (k : Locking)
      → IsLock k.ci
      → IsLock (lock_set svc (record { letter = c; flag = 7; setvalue = set_limit }) k).ci
  unfolding lock_set cs_set_value
  set_limit_entry c k h =
      cs_set_limit-IsLock (first_of k.args)
        (record k.ci {
          mlock_on = update k.ci.mlock_on 7 true;
          mlock_off = update k.ci.mlock_off 7 false;
        })
        (λ f. update_set k.ci.mlock_on k.ci.mlock_off 7 f (h.apart f)) h.values.0 h.registered

  plain_entry :
      (c g : ℕ) (k : Locking)
      → (6 == g) ≡ false
      → (7 == g) ≡ false
      → (9 == g) ≡ false
      → IsLock k.ci
      → IsLock (lock_set svc (record { letter = c; flag = g; setvalue = no_value }) k).ci
  unfolding lock_set
  plain_entry c g k six seven nine h = record {
    apart = λ f. update_set k.ci.mlock_on k.ci.mlock_off g f (h.apart f);
    values = (λ e. h.values.0 (sym (rw six refl) ∙ e), λ e. h.values.1 (sym (rw seven refl) ∙ e));
    registered = rw nine h.registered;
  }

  -- The entry of a mode, by its kind.
  pub lock_set-IsLock :
      (m : CbMode) (k : Locking)
      → IsKind m
      → (m.letter == b'r') ≡ false
      → IsLock k.ci
      → IsLock (lock_set svc m k).ci
  lock_set-IsLock m k (inl r) other h = never (sym other ∙ r)
  lock_set-IsLock m k (inr (inl (v, six, seven, nine))) other h =
      subst (λ n. IsLock (lock_set svc n k).ci) (sym (entry_of m no_value m.flag v refl))
        (plain_entry m.letter m.flag k six seven nine h)
  lock_set-IsLock m k (inr (inr (inl (v, f)))) other h =
      subst (λ n. IsLock (lock_set svc n k).ci) (sym (entry_of m set_key 6 v f))
        (set_key_entry m.letter k h)
  lock_set-IsLock m k (inr (inr (inr (v, f)))) other h =
      subst (λ n. IsLock (lock_set svc n k).ci) (sym (entry_of m set_limit 7 v f))
        (set_limit_entry m.letter k h)
