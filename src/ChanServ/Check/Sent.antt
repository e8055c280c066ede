-- ===== src/ChanServ/Check/Sent.antt =====
-- chanserv.c `check_modes`: what the servers make of the command that it sends.
use k9_chatnet.Common.{
  ℕ, ◌≡◌, ◌≢◌, ◌⊎◌, refl, sym, ap, subst, ◌∙◌, inl, inr, Bool, true, false, ◌&&◌, List, [], ◌∷◌,
  ◌++◌, Bytes, ◌==◌, Bool-cases, All,
}
use k9_chatnet.Channel.Modes.{Services, Chan, set_mode, set_modes}
use k9_chatnet.ChanServ.{ModeLock}
use k9_chatnet.ChanServ.Check.{
  GetValue, no_getter, get_key, get_limit, CbModeInfo, cbmodeinfos, value_on, value_in, Mended,
  lock_on, set_missing, differ, has_getter, lock_on_all, ends_with, drop_plus,
}
use k9_chatnet.ChanServ.Check.Given.{IsGiven, lock_on-Replays}
use k9_chatnet.ChanServ.Check.Replay.{IsInfo, Replays}

-- A limit that is taken away has no argument, a key has one.
abbrev pub IsOff : GetValue → Bool → Type 0
IsOff no_getter minus_no_arg = Unit
IsOff get_key minus_no_arg = minus_no_arg ≡ false
IsOff get_limit minus_no_arg = minus_no_arg ≡ true

abbrev pub IsOther : CbModeInfo → Type 0
IsOther i = (i.getvalue ≢ get_key) × IsOff i.getvalue i.minus_no_arg

-- At most one entry is that of the key.
abbrev pub KeyOnce : List CbModeInfo → Type 0
KeyOnce [] = Unit
KeyOnce (i ∷ is) =
    (IsOther i × KeyOnce is) ⊎ ((i.getvalue ≡ get_key) × (i.minus_no_arg ≡ false) × All IsOther is)

pub cbmodeinfos-KeyOnce : KeyOnce cbmodeinfos
unfolding cbmodeinfos
cbmodeinfos-KeyOnce = inl (
  (cc, tt),
  inl (
    (cc, tt),
    inr (
      refl,
      refl,
      (
        (cc, refl),
        (
          (cc, tt),
          (
            (cc, tt),
            ((cc, tt), ((cc, tt), ((cc, tt), ((cc, tt), ((cc, tt), ((cc, tt), ((cc, tt), tt))))))),
          ),
        ),
      ),
    ),
  ),
)

ends_with-snoc : (c d : ℕ) (s : Bytes) → ends_with c (s ++ d ∷ []) ≡ (d == c)
ends_with-snoc c d [] = refl
ends_with-snoc c d (e ∷ []) = refl
ends_with-snoc c d (e ∷ (f ∷ s)) = ends_with-snoc c d (f ∷ s)

-- Where the letters end with a plus, there is nothing else.
abbrev pub EndsWell : Mended → Type 0
EndsWell k = (ends_with b'+' k.letters ≡ false) ⊎ (k.letters ≡ b'+' ∷ [])

module _ (svc : Services) (print : ℕ → Bytes) where
  set_missing-letters :
      (c f : ℕ) (m : Bool) (v : GetValue) (ci : ModeLock) (k : Mended)
      → (set_missing svc print
          (record { letter = c; flag = f; minus_no_arg = m; getvalue = v })
          ci
          k).letters
        ≡ k.letters ++ c ∷ []
  set_missing-letters c f m no_getter ci k = refl
  set_missing-letters c f m get_key ci k = refl
  set_missing-letters c f m get_limit ci k = refl

  lock_on-EndsWell :
      (modes : ℕ → Bool) (ci : ModeLock) (i : CbModeInfo) (k : Mended)
      → IsInfo i
      → EndsWell k
      → EndsWell (lock_on svc print modes ci i k)
  unfolding lock_on
  lock_on-EndsWell modes ci i k (p, r0, r1, r2, r3) h = elim (Bool-cases (modes i.flag)) [
    | inl hit ↦ inl (
        rw hit (
          ap (ends_with b'+') (set_missing-letters i.letter i.flag i.minus_no_arg i.getvalue ci k)
          ∙ ends_with-snoc b'+' i.letter k.letters
          ∙ p))
    | inr miss ↦
        elim (Bool-cases (
          (has_getter i.getvalue && ci.mlock_on i.flag && k.chan.mode i.flag)
          && differ (value_on print i.getvalue k.chan) (value_in print i.getvalue ci))) [
            | inl wrong ↦ inl (rw (miss, wrong) (ends_with-snoc b'+' i.letter k.letters ∙ p))
            | inr right ↦ rw (miss, right) h
          ]
  ]

  pub lock_on_all-EndsWell :
      (modes : ℕ → Bool) (ci : ModeLock) (is : List CbModeInfo) (k : Mended)
      → All IsInfo is
      → EndsWell k
      → EndsWell (lock_on_all svc print modes ci is k)
  unfolding lock_on_all
  lock_on_all-EndsWell modes ci [] k infos h = h
  lock_on_all-EndsWell modes ci (i ∷ is) k (info, infos) h =
      lock_on_all-EndsWell modes ci is (lock_on svc print modes ci i k) infos
        (lock_on-EndsWell modes ci i k info h)

module _ (svc : Services) (print : ℕ → Bytes) (servermode : Bool) where
  pub lock_on_all-Replays :
      (modes : ℕ → Bool) (ci : ModeLock) (is : List CbModeInfo) (ch : Chan) (k : Mended)
      → All IsInfo is
      → All (IsGiven svc print servermode ci) is
      → ((f : ℕ) → modes f ≡ true → ci.mlock_on f ≡ true)
      → ((more : List Bytes) → Replays svc print servermode true ch more k)
      → (more : List Bytes)
      → Replays svc print servermode true ch more (lock_on_all svc print modes ci is k)
  unfolding lock_on_all
  lock_on_all-Replays modes ci [] ch k infos givens on h more = h more
  lock_on_all-Replays modes ci (i ∷ is) ch k (info, infos) (given, givens) on h more =
      lock_on_all-Replays modes ci is ch (lock_on svc print modes ci i k) infos givens on
        (lock_on-Replays svc print servermode ci i modes ch k info given (on i.flag) h) more

  pub drop_plus-Replays :
      (s : Bytes) (args : List Bytes) (at ch : Chan) (more : List Bytes)
      → EndsWell (record { letters = s; args = args; chan = at })
      → Replays svc print servermode true ch more (record { letters = s; args = args; chan = at })
      → Replays svc print servermode true ch more
          (drop_plus (record { letters = s; args = args; chan = at }))
  unfolding drop_plus set_modes set_mode
  drop_plus-Replays s args at ch more (inl e) h = rw e h
  drop_plus-Replays s args at ch more (inr e) h =
      subst
        (λ t.
          Replays svc print servermode true ch more (record { letters = t; args = args; chan = at })
          → Replays svc print servermode true ch more
              (drop_plus (record { letters = t; args = args; chan = at })))
        (sym e) (λ r. r) h
