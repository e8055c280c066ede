-- ===== src/ChanServ/Check/Cleared.antt =====
-- chanserv.c `check_modes`: the command that it sends for the modes that are locked off.
use k9_chatnet.Common.{
  ℕ, ◌≡◌, ◌≢◌, refl, sym, ap, subst, ◌∙◌, inl, inr, Bool, true, false, List, [], ◌∷◌, ◌++◌,
  append-nil, Bytes, Option, none, some, Bool-cases, All,
}
use k9_chatnet.Channel.Modes.{
  Services, Chan, after_flag, set_limit, set_value, set_flag, set_mode, set_key,
}
use k9_chatnet.ChanServ.Check.{
  GetValue, no_getter, get_key, get_limit, CbModeInfo, value_on, Mended, lock_off, lock_off_all,
  arg_of, clear_set,
}
use k9_chatnet.ChanServ.Check.Replay.{
  IsInfo, Replays, Replays-snoc, set_mode-info, set_at_info, no_value-Replays,
}
use k9_chatnet.ChanServ.Check.Sent.{IsOff, IsOther, KeyOnce}

module _ (svc : Services) (print : ℕ → Bytes) (servermode : Bool) where
  clear_other-Replays :
      (c f : ℕ) (m : Bool) (v : GetValue) (ch : Chan) (k : Mended) (more : List Bytes)
      → IsInfo (record { letter = c; flag = f; minus_no_arg = m; getvalue = v })
      → v ≢ get_key
      → IsOff v m
      → Replays svc print servermode false ch more k
      → Replays svc print servermode false ch more
          (clear_set svc print (record { letter = c; flag = f; minus_no_arg = m; getvalue = v }) k)
  clear_other-Replays c f m no_getter ch k more info other off h =
      no_value-Replays svc print servermode false c f m ch k info more h
  clear_other-Replays c f m get_key ch k more info other off h = elim (other refl) [ ]
  clear_other-Replays c f m get_limit ch k more info other off h =
      let i : CbModeInfo = record {
        letter = c;
        flag = f;
        minus_no_arg = m;
        getvalue = get_limit;
      } in
      rw (off, set_at_info svc print servermode i none (set_flag svc false f k.chan) info)
        (Replays-snoc svc print servermode false false ch k.letters k.args c [] more k.chan
          (set_value svc set_limit none (set_flag svc false f k.chan)) h
          (set_mode-info svc print servermode false i more k.chan info))

  set_key_none : (o : Option Bytes) (ch : Chan) → ch.key ≡ o → record ch { key = o } ≡ ch
  set_key_none o ch e = ap (λ k. record ch { key = k }) (sym e)

  -- The key that is taken away is the argument; without a key there is none, and none may follow.
  take_key :
      (o : Option Bytes) (ch : Chan)
      → ch.key ≡ o
      → after_flag svc set_key (record { add = false; args = arg_of o ++ []; chan = ch })
        ≡ record { add = false; args = []; chan = set_value svc set_key none ch }
  unfolding set_value
  take_key none ch e =
      ap (λ c. record { add = false; args = []; chan = c }) (sym (set_key_none none ch e))
  take_key (some v) ch e = refl

  clear_key-Replays :
      (c f : ℕ) (ch : Chan) (k : Mended)
      → IsInfo (record { letter = c; flag = f; minus_no_arg = false; getvalue = get_key })
      → ((more : List Bytes) → Replays svc print servermode false ch more k)
      → Replays svc print servermode false ch [] (
          clear_set svc print
            (record { letter = c; flag = f; minus_no_arg = false; getvalue = get_key })
            k)
  unfolding value_on
  clear_key-Replays c f ch k info h =
      let i : CbModeInfo = record {
        letter = c;
        flag = f;
        minus_no_arg = false;
        getvalue = get_key;
      } in
      let at : Chan = set_flag svc false f k.chan in
      rw (set_at_info svc print servermode i none at info) (
        Replays-snoc svc print servermode false false ch k.letters k.args c (arg_of at.key) []
          k.chan (set_value svc set_key none at) (h (arg_of at.key ++ []))
          (set_mode-info svc print servermode false i (arg_of at.key ++ []) k.chan info
            ∙ take_key at.key at refl))

  lock_off_other-Replays :
      (modes : ℕ → Bool) (i : CbModeInfo) (ch : Chan) (k : Mended) (more : List Bytes)
      → IsInfo i
      → IsOther i
      → Replays svc print servermode false ch more k
      → Replays svc print servermode false ch more (lock_off svc print modes i k)
  unfolding lock_off
  lock_off_other-Replays modes i ch k more info (other, off) h = elim (Bool-cases (modes i.flag)) [
    | inl hit ↦
        rw hit
          (clear_other-Replays i.letter i.flag i.minus_no_arg i.getvalue ch k more info other off h)
    | inr miss ↦ rw miss h
  ]

  lock_off_others-Replays :
      (modes : ℕ → Bool) (is : List CbModeInfo) (ch : Chan) (k : Mended)
      → All IsInfo is
      → All IsOther is
      → Replays svc print servermode false ch [] k
      → Replays svc print servermode false ch [] (lock_off_all svc print modes is k)
  unfolding lock_off_all
  lock_off_others-Replays modes [] ch k infos others h = h
  lock_off_others-Replays modes (i ∷ is) ch k (info, infos) (other, others) h =
      lock_off_others-Replays modes is ch (lock_off svc print modes i k) infos others
        (lock_off_other-Replays modes i ch k [] info other h)

  clear_key_at :
      (i : CbModeInfo) (v : GetValue) (m : Bool) (ch : Chan) (k : Mended)
      → v ≡ get_key
      → m ≡ false
      → IsInfo (record { letter = i.letter; flag = i.flag; minus_no_arg = m; getvalue = v })
      → ((more : List Bytes) → Replays svc print servermode false ch more k)
      → Replays svc print servermode false ch [] (
          clear_set svc print
            (record { letter = i.letter; flag = i.flag; minus_no_arg = m; getvalue = v })
            k)
  clear_key_at i get_key false ch k e f info h = clear_key-Replays i.letter i.flag ch k info h
  clear_key_at i get_key true ch k e f info h = cc
  clear_key_at i no_getter m ch k e f info h = cc
  clear_key_at i get_limit m ch k e f info h = cc

  lock_off_key-Replays :
      (modes : ℕ → Bool) (i : CbModeInfo) (ch : Chan) (k : Mended)
      → IsInfo i
      → i.getvalue ≡ get_key
      → i.minus_no_arg ≡ false
      → ((more : List Bytes) → Replays svc print servermode false ch more k)
      → Replays svc print servermode false ch [] (lock_off svc print modes i k)
  unfolding lock_off
  lock_off_key-Replays modes i ch k info e f h = elim (Bool-cases (modes i.flag)) [
    | inl hit ↦ rw hit (clear_key_at i i.getvalue i.minus_no_arg ch k e f info h)
    | inr miss ↦ rw miss (h [])
  ]

  pub lock_off_all-Replays :
      (modes : ℕ → Bool) (is : List CbModeInfo) (ch : Chan) (k : Mended)
      → All IsInfo is
      → KeyOnce is
      → ((more : List Bytes) → Replays svc print servermode false ch more k)
      → Replays svc print servermode false ch [] (lock_off_all svc print modes is k)
  unfolding lock_off_all
  lock_off_all-Replays modes [] ch k infos once h = h []
  lock_off_all-Replays modes (i ∷ is) ch k (info, infos) (inl (other, once)) h =
      lock_off_all-Replays modes is ch (lock_off svc print modes i k) infos once
        (λ more. lock_off_other-Replays modes i ch k more info other (h more))
  lock_off_all-Replays modes (i ∷ is) ch k (info, infos) (inr (e, f, others)) h =
      lock_off_others-Replays modes is ch (lock_off svc print modes i k) infos others
        (lock_off_key-Replays modes i ch k info e f h)

  pub minus-Replays :
      (s : Bytes) (args : List Bytes) (at ch : Chan) (more : List Bytes)
      → Replays svc print servermode true ch more (record { letters = s; args = args; chan = at })
      → Replays svc print servermode false ch more
          (record { letters = s ++ b'-' ∷ []; args = args; chan = at })
  unfolding set_mode
  minus-Replays s args at ch more h =
      subst
        (λ a.
          Replays svc print servermode false ch more
            (record { letters = s ++ b'-' ∷ []; args = a; chan = at }))
        (append-nil args)
        (Replays-snoc svc print servermode true false ch s args b'-' [] more at at h refl)
