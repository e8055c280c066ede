-- ===== src/ChanServ/Mlock/Kept.antt =====
-- chanserv.c `do_set_mlock`: the lock that it leaves.
use k9_chatnet.Common.{
  ℕ, ◌≡◌, refl, sym, subst, ◌∙◌, inl, inr, Bool, true, false, ◌&&◌, ◌||◌, not, List, [], ◌∷◌, Bytes,
  Option, none, some, ◌==◌, leb, ltb, Bool-cases,
}
use k9_chatnet.Channel.Modes.{Services, CbMode, cbmodes, cbmode_in}
use k9_chatnet.Channel.Modes.Table.{cbmode_in-All}
use k9_chatnet.ChanServ.{ModeLock}
use k9_chatnet.ChanServ.Check.Agreed.{never, check_modes-replay, replay}
use k9_chatnet.ChanServ.Check.Meaning.{is_listed, and_false_right}
use k9_chatnet.ChanServ.Check.Enforced.{check_modes-mode}
use k9_chatnet.ChanServ.Check.{Watched, check_modes, cbmodeinfos}
use k9_chatnet.ChanServ.Mlock.Unlock.{lock_clear-IsLock}
use k9_chatnet.ChanServ.Mlock.Entries.{IsLock, IsKind, cbmodes-IsKind, lock_set-IsLock}
use k9_chatnet.ChanServ.Mlock.{
  Locking, fresh_lock, lock_found, lock_letter, lock_mode, lock_modes, is_no_user_mlock, Answer,
  changed, do_set_mlock, set_mlock_with,
}

module _ (svc : Services) where
  lock_found-IsLock :
      (is_oper add : Bool) (o : Option CbMode) (k : Locking)
      → ((m : CbMode) → o ≡ some m → IsKind m)
      → IsLock k.ci
      → IsLock (lock_found svc is_oper add o k).ci
  lock_found-IsLock is_oper add none k kind h = h
  lock_found-IsLock is_oper true (some m) k kind h = elim (Bool-cases (m.letter == b'r')) [
    | inl r ↦ rw r h
    | inr other ↦ elim (Bool-cases (is_no_user_mlock m && not is_oper)) [
      | inl opers ↦ rw (other, opers) h
      | inr free ↦ rw (other, free) (lock_set-IsLock svc m k (kind m refl) other h)
    ]
  ]
  lock_found-IsLock is_oper false (some m) k kind h = elim (Bool-cases (m.letter == b'r')) [
    | inl r ↦ rw r h
    | inr other ↦ elim (Bool-cases (is_no_user_mlock m && not is_oper)) [
      | inl opers ↦ rw (other, opers) h
      | inr free ↦ rw (other, free) (lock_clear-IsLock svc m k.ci (kind m refl) other h)
    ]
  ]

  lock_letter-IsLock :
      (is_oper : Bool) (c : ℕ) (add : Option Bool) (k : Locking)
      → IsLock k.ci
      → IsLock (lock_letter svc is_oper c add k).ci
  lock_letter-IsLock is_oper c none k h = h
  lock_letter-IsLock is_oper c (some add) k h = elim (Bool-cases (ltb c 128)) [
    | inl low ↦ rw low (
        lock_found-IsLock is_oper add (cbmode_in c cbmodes) k
          (λ m e. (cbmode_in-All IsKind c m cbmodes cbmodes-IsKind e).0) h)
    | inr high ↦ rw high h
  ]

  lock_mode-IsLock :
      (is_oper : Bool) (c : ℕ) (k : Locking) → IsLock k.ci → IsLock (lock_mode svc is_oper c k).ci
  unfolding lock_mode
  lock_mode-IsLock is_oper c k h = elim (Bool-cases (c == b'+')) [
    | inl plus ↦ rw plus h
    | inr p ↦ elim (Bool-cases (c == b'-')) [
      | inl minus ↦ rw (p, minus) h
      | inr q ↦ rw (p, q) (lock_letter-IsLock is_oper c k.add k h)
    ]
  ]

  lock_modes-IsLock :
      (is_oper : Bool) (s : Bytes) (k : Locking)
      → IsLock k.ci
      → IsLock (lock_modes svc is_oper s k).ci
  unfolding lock_modes
  lock_modes-IsLock is_oper [] k h = h
  lock_modes-IsLock is_oper (c ∷ s) k h =
      lock_modes-IsLock is_oper s (lock_mode svc is_oper c k) (lock_mode-IsLock is_oper c k h)

fresh_lock-IsLock : IsLock fresh_lock
unfolding fresh_lock
fresh_lock-IsLock = record {
  apart = λ f. elim (Bool-cases (f == 9)) [ inl nine ↦ rw nine refl | inr other ↦ rw other refl ];
  values = (λ e. never e, λ e. never e);
  registered = refl;
}

abbrev AnswersLock : Answer → Type 0
AnswersLock Answer.syntax = Unit
AnswersLock Answer.not_registered = Unit
AnswersLock Answer.denied = Unit
AnswersLock Answer.defcon = Unit
AnswersLock (changed ci) = IsLock ci

held : (m off : Bool) → (true && off) ≡ false → ((m || true) && not off) ≡ true
held true true h = cc
held true false h = refl
held false true h = cc
held false false h = refl

module _ (svc : Services) (known may : Bytes → Bool) (is_defcon is_oper : Bool) where
  set_mlock_with-AnswersLock :
      (words : List Bytes) → AnswersLock (set_mlock_with svc is_defcon is_oper words)
  set_mlock_with-AnswersLock [] = tt
  set_mlock_with-AnswersLock (param ∷ args) = elim (Bool-cases is_defcon) [
    | inl d ↦ rw d tt
    | inr d ↦ rw d (
        lock_modes-IsLock svc is_oper param (record { add = none; args = args; ci = fresh_lock })
          fresh_lock-IsLock)
  ]

  do_set_mlock-AnswersLock :
      (words : List Bytes) → AnswersLock (do_set_mlock svc known may is_defcon is_oper words)
  unfolding do_set_mlock
  do_set_mlock-AnswersLock [] = tt
  do_set_mlock-AnswersLock (chan ∷ words) = elim (Bool-cases (known chan)) [
    | inr k ↦ rw k tt
    | inl k ↦ elim (Bool-cases (may chan)) [
      | inr m ↦ rw (k, m) tt
      | inl m ↦ rw (k, m) (set_mlock_with-AnswersLock words)
    ]
  ]

  -- A lock that `do_set_mlock` makes, whatever the words are, keeps the mode r on, has no mode both on and
  -- off, has a key if k is on, and has a limit other than 0 if l is on.
  pub do_set_mlock-IsLock :
      (words : List Bytes) (ci : ModeLock)
      → do_set_mlock svc known may is_defcon is_oper words ≡ changed ci
      → IsLock ci
  do_set_mlock-IsLock words ci e = subst AnswersLock e (do_set_mlock-AnswersLock words)

  -- `check_modes` on a channel whose modes do not bounce, with a lock that `do_set_mlock` made: of the modes that
  -- ChanServ knows, those locked on are set and those locked off are clear, and the servers, which read the command that it sends, have
  -- the same channel as ChanServ's record.
  pub do_set_mlock-check_modes :
      (print : ℕ → Bytes) (source : Bytes) (now : ℕ) (words : List Bytes) (ci : ModeLock)
      (w : Watched)
      → do_set_mlock svc known may is_defcon is_oper words ≡ changed ci
      → w.bouncy_modes ≡ false
      → (leb 3 w.server_modecount && leb 3 w.chanserv_modecount) ≡ false
      → w.sent ≡ []
      → ((f : ℕ)
          → is_listed f cbmodeinfos ≡ true
          → (ci.mlock_on f ≡ true → (check_modes svc print now (some ci) w).chan.mode f ≡ true)
            × (ci.mlock_off f ≡ true → (check_modes svc print now (some ci) w).chan.mode f ≡ false))
        × (replay svc source (check_modes svc print now (some ci) w).sent w.chan
            ≡ (check_modes svc print now (some ci) w).chan)
  do_set_mlock-check_modes print source now words ci w e calm few quiet =
      let h : IsLock ci = do_set_mlock-IsLock words ci e in
      (
        λ f listed.
            let m = check_modes-mode svc print now ci w f calm few in
            (
              λ on.
                  m
                  ∙ rw (listed, on)
                      (held (w.chan.mode f) (ci.mlock_off f) (sym (rw on refl) ∙ h.apart f)),
              λ off. m ∙ rw (listed, off) (and_false_right (w.chan.mode f || ci.mlock_on f)),
            ),
        check_modes-replay svc print source now (some ci) w h.values quiet,
      )
