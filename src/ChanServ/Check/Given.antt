-- ===== src/ChanServ/Check/Given.antt =====
-- chanserv.c `check_modes`: the command that it sends for a mode that is locked on.
use k9_chatnet.Common.{
  ℕ, ◌≡◌, refl, subst, inl, inr, Bool, true, ◌&&◌, List, [], ◌∷◌, ◌++◌, Bytes, some, Bool-cases,
}
use k9_chatnet.Channel.Modes.{Services, Chan}
use k9_chatnet.ChanServ.{ModeLock}
use k9_chatnet.ChanServ.Check.{
  GetValue, no_getter, get_key, get_limit, CbModeInfo, value_on, value_in, Mended, lock_on,
  set_missing, fix_value, differ, has_getter, set_at, arg_of,
}
use k9_chatnet.ChanServ.Check.Replay.{
  and_true, IsInfo, Replays, value-Replays, no_value-Replays, set_flag_same,
}

module _ (svc : Services) (print : ℕ → Bytes) (servermode : Bool) where
  -- Where the lock wants a mode with a value, it has the value.
  abbrev pub IsGiven : ModeLock → CbModeInfo → Type 0
  IsGiven ci i =
      has_getter i.getvalue ≡ true
      → ci.mlock_on i.flag ≡ true
      → (w : Bytes) × (value_in print i.getvalue ci ≡ some w)

  missing-Replays :
      (c f : ℕ) (m : Bool) (v : GetValue) (ci : ModeLock) (ch : Chan) (k : Mended)
      → IsInfo (record { letter = c; flag = f; minus_no_arg = m; getvalue = v })
      → IsGiven ci (record { letter = c; flag = f; minus_no_arg = m; getvalue = v })
      → ci.mlock_on f ≡ true
      → ((more : List Bytes) → Replays svc print servermode true ch more k)
      → (more : List Bytes)
      → Replays svc print servermode true ch more (
          set_missing svc print
            (record { letter = c; flag = f; minus_no_arg = m; getvalue = v })
            ci
            k)
  missing-Replays c f m no_getter ci ch k info given on h more =
      no_value-Replays svc print servermode true c f m ch k info more (h more)
  missing-Replays c f m get_key ci ch k info given on h more =
      value-Replays svc print servermode
        (record { letter = c; flag = f; minus_no_arg = m; getvalue = get_key })
        (value_in print get_key ci) (given refl on).0 ch k info refl (given refl on).1 h more
  missing-Replays c f m get_limit ci ch k info given on h more =
      value-Replays svc print servermode
        (record { letter = c; flag = f; minus_no_arg = m; getvalue = get_limit })
        (value_in print get_limit ci) (given refl on).0 ch k info refl (given refl on).1 h more

  fixed-Replays :
      (ci : ModeLock) (i : CbModeInfo) (ch : Chan) (k : Mended)
      → IsInfo i
      → IsGiven ci i
      → (has_getter i.getvalue && ci.mlock_on i.flag) ≡ true
      → k.chan.mode i.flag ≡ true
      → ((more : List Bytes) → Replays svc print servermode true ch more k)
      → (more : List Bytes) → Replays svc print servermode true ch more (fix_value svc print i ci k)
  fixed-Replays ci i ch k info given locked flagged h more =
      let (v, on) = and_true (has_getter i.getvalue) (ci.mlock_on i.flag) locked in
      let (w, e) = given v on in
      subst
        (λ c. Replays svc print servermode true ch more (record {
          letters = k.letters ++ i.letter ∷ [];
          args = k.args ++ arg_of (value_in print i.getvalue ci);
          chan = set_at svc print i.letter (value_in print i.getvalue ci) c;
        }))
        (set_flag_same svc print servermode i.flag k.chan flagged)
        (value-Replays svc print servermode i (value_in print i.getvalue ci) w ch k info v e h more)

  pub lock_on-Replays :
      (ci : ModeLock) (i : CbModeInfo) (modes : ℕ → Bool) (ch : Chan) (k : Mended)
      → IsInfo i
      → IsGiven ci i
      → (modes i.flag ≡ true → ci.mlock_on i.flag ≡ true)
      → ((more : List Bytes) → Replays svc print servermode true ch more k)
      → (more : List Bytes)
      → Replays svc print servermode true ch more (lock_on svc print modes ci i k)
  unfolding lock_on
  lock_on-Replays ci i modes ch k info given on h more = elim (Bool-cases (modes i.flag)) [
    | inl hit ↦ rw hit (
        missing-Replays i.letter i.flag i.minus_no_arg i.getvalue ci ch k info given (on hit) h
          more)
    | inr miss ↦
        elim (Bool-cases (has_getter i.getvalue && ci.mlock_on i.flag && k.chan.mode i.flag)) [
          | inr other ↦ rw (miss, other) (h more)
          | inl there ↦
              elim (Bool-cases
                (differ (value_on print i.getvalue k.chan) (value_in print i.getvalue ci))) [
                  | inr same ↦ rw (miss, there, same) (h more)
                  | inl wrong ↦
                      rw (miss, there, wrong)
                        (fixed-Replays ci i ch k info given
                          ((and_true (has_getter i.getvalue && ci.mlock_on i.flag)
                            (k.chan.mode i.flag) there).0)
                          ((and_true (has_getter i.getvalue && ci.mlock_on i.flag)
                            (k.chan.mode i.flag) there).1)
                          h more)
                ]
        ]
  ]
