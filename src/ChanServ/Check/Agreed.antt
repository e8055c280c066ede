-- ===== src/ChanServ/Check/Agreed.antt =====
-- chanserv.c `check_modes`: the channel as ChanServ keeps it and as the servers do.
use k9_chatnet.Common.{
  arith, ℕ, zero, suc, ◌≡◌, ◌≢◌, refl, sym, ap, subst, ◌∙◌, inl, inr, Bool, true, false, ◌&&◌, not,
  List, [], ◌∷◌, ◌++◌, append-nil, Bytes, Option, none, some, ◌==◌, leb, if◌then◌else◌, Bool-cases,
  All,
}
use k9_chatnet.Channel.Modes.{
  Services, Chan, set_mode, set_modes, chan_set_modes, has_dot, set_flag, cbmodes, cbmode_in,
  cumode,
}
use k9_chatnet.ChanServ.{ModeLock, to_value}
use k9_chatnet.ChanServ.Check.{
  cbmodeinfos, value_in, Mended, lock_on_all, drop_plus, clear_modes, mend, some_flag, Watched,
  send_mode, count_check, unregistered, apply_lock, check_modes,
}
use k9_chatnet.ChanServ.Check.Replay.{HasValues, and_true, cbmodeinfos-IsInfo, Replays}
use k9_chatnet.ChanServ.Check.Given.{IsGiven}
use k9_chatnet.ChanServ.Check.Cleared.{lock_off_all-Replays, minus-Replays}
use k9_chatnet.ChanServ.Check.Sent.{
  cbmodeinfos-KeyOnce, lock_on_all-EndsWell, lock_on_all-Replays, drop_plus-Replays,
}

different : false ≢ true
different = λ e. cc

pub never : {A : Type 0} → false ≡ true → A
never e = elim (different e) [ ]

module _ (svc : Services) (print : ℕ → Bytes) (servermode : Bool) where
  neq_zero : (n : ℕ) → (suc n == 0) ≡ false
  neq_zero n = ground arith

  given_limit : (n : ℕ) → n ≢ 0 → to_value print n ≡ some (print n)
  given_limit zero h = elim (h refl) [ ]
  given_limit (suc n) h = rw (neq_zero n) refl

  cbmodeinfos-IsGiven :
      (ci : ModeLock) → HasValues ci → All (IsGiven svc print servermode ci) cbmodeinfos
  unfolding cbmodeinfos value_in
  cbmodeinfos-IsGiven ci (has_key, has_limit) = (
    (λ v on. never v),
    (
      (λ v on. never v),
      (
        (λ v on. has_key on),
        (
          (λ v on. (print ci.mlock_limit, given_limit ci.mlock_limit (has_limit on))),
          (
            (λ v on. never v),
            (
              (λ v on. never v),
              (
                (λ v on. never v),
                (
                  (λ v on. never v),
                  (
                    (λ v on. never v),
                    (
                      (λ v on. never v),
                      ((λ v on. never v), ((λ v on. never v), ((λ v on. never v), tt))),
                    ),
                  ),
                ),
              ),
            ),
          ),
        ),
      ),
    ),
  )

  start-Replays :
      (ch : Chan) (more : List Bytes)
      → Replays svc print servermode true ch more
          (record { letters = b'+' ∷ []; args = []; chan = ch })
  unfolding set_modes set_mode
  start-Replays ch more = refl

  -- The loops, in the order of `mend`.
  mend-Replays :
      (ci : ModeLock) (ch : Chan)
      → HasValues ci
      → (add : Bool) × Replays svc print servermode add ch [] (mend svc print ci ch)
  unfolding mend clear_modes
  mend-Replays ci ch h =
      let modes : ℕ → Bool = λ f. not (ch.mode f) && ci.mlock_on f in
      let first : Mended = record { letters = b'+' ∷ []; args = []; chan = ch } in
      let k : Mended = lock_on_all svc print modes ci cbmodeinfos first in
      let d : Mended = drop_plus k in
      let on : (more : List Bytes) → Replays svc print servermode true ch more d = λ more.
        drop_plus-Replays svc print servermode k.letters k.args k.chan ch more
          (lock_on_all-EndsWell svc print modes ci cbmodeinfos first cbmodeinfos-IsInfo (inr refl))
          (lock_on_all-Replays svc print servermode modes ci cbmodeinfos ch first cbmodeinfos-IsInfo
            (cbmodeinfos-IsGiven ci h) (λ f e. (and_true (not (ch.mode f)) (ci.mlock_on f) e).1)
            (λ more. start-Replays ch more) more) in
      elim (Bool-cases (some_flag 32 (λ (f : ℕ). d.chan.mode f && ci.mlock_off f))) [
        | inr no_flag ↦ rw no_flag (true, on [])
        | inl flagged ↦ rw flagged (
          false,
          lock_off_all-Replays svc print servermode (λ (f : ℕ). d.chan.mode f && ci.mlock_off f)
              cbmodeinfos ch
              (record { letters = d.letters ++ b'-' ∷ []; args = d.args; chan = d.chan })
              cbmodeinfos-IsInfo cbmodeinfos-KeyOnce
              (λ more.
                minus-Replays svc print servermode d.letters d.args d.chan ch more (on more)),
        )
      ]

pub if_else :
    {A : Type 0} (P : A → Type 0) (a b : Bool) (x y z : A)
    → P x
    → P y
    → P z
    → P (if a then x else if b then y else z)
if_else P true b x y z h i j = h
if_else P false true x y z h i j = i
if_else P false false x y z h i j = j

-- What the servers make of the commands.
unfoldable pub replay : Services → Bytes → List (Bytes × List Bytes) → Chan → Chan
replay svc source [] ch = ch
replay svc source ((s, args) ∷ cmds) ch =
    replay svc source cmds (chan_set_modes svc (λ c. c) source s args false ch)

abbrev pub AllHasValues : Option ModeLock → Type 0
AllHasValues none = Unit
AllHasValues (some ci) = HasValues ci

module _ (svc : Services) (print : ℕ → Bytes) (source : Bytes) where
  Replays-replay :
      (s : Bytes) (args : List Bytes) (at ch : Chan) (add : Bool) (w : Watched)
      → w.sent ≡ []
      → Replays svc print
          (has_dot svc source)
          add
          ch
          []
          (record { letters = s; args = args; chan = at })
      → replay svc source (send_mode s args w).sent ch ≡ at
  unfolding replay set_modes chan_set_modes
  Replays-replay [] args at ch add w e h = rw e (ap (λ k. k.chan) h)
  Replays-replay (c ∷ s) args at ch add w e h = rw e (
      subst
        (λ a.
          (set_modes svc (has_dot svc source) false (c ∷ s)
            (record { add = true; args = a; chan = ch })).chan
          ≡ at)
        (append-nil args) (ap (λ k. k.chan) h))

  pub send_mode-chan :
      (s : Bytes) (args : List Bytes) (w : Watched) → (send_mode s args w).chan ≡ w.chan
  send_mode-chan [] args w = refl
  send_mode-chan (c ∷ s) args w = refl

  unregistered-replay :
      (w : Watched)
      → w.sent ≡ []
      → replay svc source (unregistered w).sent w.chan ≡ (unregistered w).chan
  unfolding unregistered replay chan_set_modes set_modes set_mode cumode cbmode_in cbmodes set_flag
  unregistered-replay w e = elim (Bool-cases (w.chan.mode 9)) [
    | inl r ↦ rw (r, e) refl
    | inr other ↦ rw (other, e) refl
  ]

  apply_lock-replay :
      (ci : Option ModeLock) (w : Watched)
      → AllHasValues ci
      → w.sent ≡ []
      → replay svc source (apply_lock svc print ci w).sent w.chan ≡ (apply_lock svc print ci w).chan
  apply_lock-replay none w h e = unregistered-replay w e
  apply_lock-replay (some ci) w h e =
      let k : Mended = mend svc print ci w.chan in
      let (add, r) = mend-Replays svc print (has_dot svc source) ci w.chan h in
      Replays-replay k.letters k.args k.chan w.chan add (record w { chan = k.chan }) e r
      ∙ sym (send_mode-chan k.letters k.args (record w { chan = k.chan }))

  pub count_check-chan : (now : ℕ) (w : Watched) → (count_check now w).chan ≡ w.chan
  unfolding count_check
  count_check-chan now w = elim (Bool-cases (w.chanserv_modetime == now)) [
    | inl same ↦ rw same refl
    | inr later ↦ rw later refl
  ]

  pub count_check-sent : (now : ℕ) (w : Watched) → (count_check now w).sent ≡ w.sent
  unfolding count_check
  count_check-sent now w = elim (Bool-cases (w.chanserv_modetime == now)) [
    | inl same ↦ rw same refl
    | inr later ↦ rw later refl
  ]

  -- The command that `check_modes` sends, if it sends one, gives the channel of the servers the modes, the
  -- key and the limit that ChanServ's own record of it has from then on, and without a command the record stays: for every
  -- channel and every lock in which a locked key and a locked limit have their values.
  pub check_modes-replay :
      (now : ℕ) (ci : Option ModeLock) (w : Watched)
      → AllHasValues ci
      → w.sent ≡ []
      → replay svc source (check_modes svc print now ci w).sent w.chan
        ≡ (check_modes svc print now ci w).chan
  unfolding check_modes replay
  check_modes-replay now ci w h e =
      if_else (λ (a : Watched). replay svc source a.sent w.chan ≡ a.chan) w.bouncy_modes
        (leb 3 w.server_modecount && leb 3 w.chanserv_modecount) w
        (record w { bouncy_modes = true }) (apply_lock svc print ci (count_check now w)) (rw e refl)
        (rw e refl)
        (subst
          (λ c.
            replay svc source (apply_lock svc print ci (count_check now w)).sent c
            ≡ (apply_lock svc print ci (count_check now w)).chan)
          (count_check-chan now w)
          (apply_lock-replay ci (count_check now w) h (count_check-sent now w ∙ e)))
