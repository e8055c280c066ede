-- ===== src/ChanServ/Check/Enforced.antt =====
-- chanserv.c `check_modes`: the modes that it leaves.
use k9_chatnet.Common.{
  ℕ, ◌≡◌, refl, ap, ◌∙◌, inl, inr, Bool, true, false, ◌&&◌, ◌||◌, not, [], ◌∷◌, ◌++◌, Bytes, some,
  leb, if◌then◌else◌, Bool-cases,
}
use k9_chatnet.Channel.Modes.{Services, Chan}
use k9_chatnet.ChanServ.{ModeLock}
use k9_chatnet.ChanServ.Check.{
  cbmodeinfos, Mended, lock_on_all, drop_plus, clear_modes, mend, some_flag,
}
use k9_chatnet.ChanServ.Check.{Watched, check_modes, apply_lock, count_check}
use k9_chatnet.ChanServ.Check.Agreed.{send_mode-chan, count_check-chan}
use k9_chatnet.ChanServ.Check.Meaning.{
  is_listed, lock_on_all-mode, lock_off_all-mode, drop_plus-chan, some_flag-none, is_listed-small,
  both_loops,
}

module _ (svc : Services) (print : ℕ → Bytes) where
  clear_modes-mode :
      (ci : ModeLock) (k : Mended) (f : ℕ)
      → (clear_modes svc print ci k).chan.mode f ≡ (
          if is_listed f cbmodeinfos && (k.chan.mode f && ci.mlock_off f)
          then false
          else k.chan.mode f)
  unfolding clear_modes
  clear_modes-mode ci k f =
      elim (Bool-cases (some_flag 32 (λ (g : ℕ). k.chan.mode g && ci.mlock_off g))) [
        | inl set ↦ rw set (
            lock_off_all-mode svc print (λ (g : ℕ). k.chan.mode g && ci.mlock_off g) cbmodeinfos
              (record { letters = k.letters ++ b'-' ∷ []; args = k.args; chan = k.chan }) f)
        | inr clear ↦ rw clear (elim (Bool-cases (is_listed f cbmodeinfos)) [
          | inl listed ↦
              rw
                (
                  listed,
                  some_flag-none 32 (λ (g : ℕ). k.chan.mode g && ci.mlock_off g) f clear
                      (is_listed-small f listed),
                )
                refl
          | inr other ↦ rw other refl
        ])
      ]

  mend-mode :
      (ci : ModeLock) (ch : Chan) (f : ℕ)
      → (mend svc print ci ch).chan.mode f ≡ (
          if is_listed f cbmodeinfos
          then (ch.mode f || ci.mlock_on f) && not (ci.mlock_off f)
          else ch.mode f)
  unfolding mend
  mend-mode ci ch f =
      let modes : ℕ → Bool = λ g. not (ch.mode g) && ci.mlock_on g in
      let first : Mended = record { letters = b'+' ∷ []; args = []; chan = ch } in
      let k : Mended = lock_on_all svc print modes ci cbmodeinfos first in
      clear_modes-mode ci (drop_plus k) f
      ∙ ap (λ (m : Bool). if is_listed f cbmodeinfos && (m && ci.mlock_off f) then false else m)
          (ap (λ c. c.mode f) (drop_plus-chan k)
            ∙ lock_on_all-mode svc print modes ci cbmodeinfos first f)
      ∙ both_loops (is_listed f cbmodeinfos) (ch.mode f) (ci.mlock_on f) (ci.mlock_off f)

  -- After `check_modes` on a registered channel whose modes do not bounce, a mode that ChanServ knows is set
  -- exactly if it was set before or is locked on, and is not locked off; any other mode is as it was.
  pub check_modes-mode :
      (now : ℕ) (ci : ModeLock) (w : Watched) (f : ℕ)
      → w.bouncy_modes ≡ false
      → (leb 3 w.server_modecount && leb 3 w.chanserv_modecount) ≡ false
      → (check_modes svc print now (some ci) w).chan.mode f ≡ (
          if is_listed f cbmodeinfos
          then (w.chan.mode f || ci.mlock_on f) && not (ci.mlock_off f)
          else w.chan.mode f)
  unfolding check_modes
  check_modes-mode now ci w f calm few =
      let k : Mended = mend svc print ci (count_check now w).chan in
      ap
        (λ (b : Bool).
          (if b
              then w
              else if leb 3 w.server_modecount && leb 3 w.chanserv_modecount
              then record w { bouncy_modes = true }
              else apply_lock svc print (some ci) (count_check now w)).chan.mode
            f)
        calm
      ∙ ap
          (λ (b : Bool).
            (if b
                then record w { bouncy_modes = true }
                else apply_lock svc print (some ci) (count_check now w)).chan.mode
              f)
          few
      ∙ ap (λ (c : Chan). c.mode f)
          (send_mode-chan svc print [] k.letters k.args
            (record (count_check now w) { chan = k.chan }))
      ∙ ap (λ (c : Chan). (mend svc print ci c).chan.mode f) (count_check-chan svc print [] now w)
      ∙ mend-mode ci w.chan f
