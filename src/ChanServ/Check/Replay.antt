-- ===== src/ChanServ/Check/Replay.antt =====
-- chanserv.c `check_modes`: the command that it sends, read by `chan_set_modes`.
use k9_chatnet.Common.{
  ℕ, ◌≡◌, ◌≢◌, refl, sym, ap, subst, ◌∙◌, fun_ext, inl, inr, Bool, true, false, ◌&&◌, List, [], ◌∷◌,
  ◌++◌, append_assoc, append-nil, Bytes, Option, none, some, ◌==◌, ==_iff, leb, Bool-cases, All,
}
use k9_chatnet.Channel.{update}
use k9_chatnet.Channel.Modes.{
  Services, Chan, Cursor, SetValue, no_value, set_key, set_limit, cbmodes, cbmode_in, cumode,
  after_flag, set_value, set_flag, set_mode, set_modes,
}
use k9_chatnet.ChanServ.{ModeLock}
use k9_chatnet.ChanServ.Check.{
  GetValue, no_getter, get_key, get_limit, CbModeInfo, cbmodeinfos, Mended, has_getter, set_at,
  arg_of,
}

pub and_true : (a b : Bool) → (a && b) ≡ true → (a ≡ true) × (b ≡ true)
and_true true b h = (refl, h)
and_true false b h = cc

-- A locked key and a locked limit are there.
abbrev pub HasValues : ModeLock → Type 0
HasValues ci =
    (ci.mlock_on 6 ≡ true → (v : Bytes) × (ci.mlock_key ≡ some v))
    × (ci.mlock_on 7 ≡ true → ci.mlock_limit ≢ 0)

-- The function that the entry of `cbmodes` sets the value with.
abbrev pub setter : GetValue → SetValue
setter no_getter = no_value
setter get_key = set_key
setter get_limit = set_limit

-- An entry agrees with the entry of `cbmodes` for its letter, which is no other letter or sign.
abbrev pub IsInfo : CbModeInfo → Type 0
IsInfo i =
    ((i.letter == b'+') ≡ false)
    × ((i.letter == b'-') ≡ false)
    × (leb 128 i.letter ≡ false)
    × (cumode i.letter ≡ none)
    × (cbmode_in i.letter cbmodes
        ≡ some (record { letter = i.letter; flag = i.flag; setvalue = setter i.getvalue }))

pub cbmodeinfos-IsInfo : All IsInfo cbmodeinfos
unfolding cbmodeinfos cbmodes cumode cbmode_in
cbmodeinfos-IsInfo = (
  (refl, refl, refl, refl, refl),
  (
    (refl, refl, refl, refl, refl),
    (
      (refl, refl, refl, refl, refl),
      (
        (refl, refl, refl, refl, refl),
        (
          (refl, refl, refl, refl, refl),
          (
            (refl, refl, refl, refl, refl),
            (
              (refl, refl, refl, refl, refl),
              (
                (refl, refl, refl, refl, refl),
                (
                  (refl, refl, refl, refl, refl),
                  (
                    (refl, refl, refl, refl, refl),
                    (
                      (refl, refl, refl, refl, refl),
                      ((refl, refl, refl, refl, refl), ((refl, refl, refl, refl, refl), tt)),
                    ),
                  ),
                ),
              ),
            ),
          ),
        ),
      ),
    ),
  ),
)

module _ (svc : Services) (print : ℕ → Bytes) (servermode : Bool) where
  -- What `chan_set_modes` makes of the letters and arguments so far: the channel, with the sign and with
  -- the arguments that follow.
  abbrev pub Replays : Bool → Chan → List Bytes → Mended → Type 0
  Replays add ch more k =
      set_modes svc servermode false k.letters
        (record { add = true; args = k.args ++ more; chan = ch })
      ≡ record { add = add; args = more; chan = k.chan }

  set_modes-append :
      (s t : Bytes) (k : Cursor)
      → set_modes svc servermode false (s ++ t) k
        ≡ set_modes svc servermode false t (set_modes svc servermode false s k)
  unfolding set_modes
  set_modes-append [] t k = refl
  set_modes-append (c ∷ s) t k = set_modes-append s t (set_mode svc servermode false c k)

  -- One letter more, with its arguments.
  pub Replays-snoc :
      (add new : Bool) (ch : Chan) (s : Bytes) (args : List Bytes) (c : ℕ) (given more : List Bytes)
      (mid after : Chan)
      → Replays add ch (given ++ more) (record { letters = s; args = args; chan = mid })
      → set_mode svc servermode false c (record { add = add; args = given ++ more; chan = mid })
        ≡ record { add = new; args = more; chan = after }
      → Replays new ch more (record { letters = s ++ c ∷ []; args = args ++ given; chan = after })
  unfolding set_modes
  Replays-snoc add new ch s args c given more mid after h e =
      set_modes-append s (c ∷ []) (record { add = true; args = (args ++ given) ++ more; chan = ch })
      ∙ ap (λ k. set_mode svc servermode false c k) (rw (append_assoc args given more) h)
      ∙ e

  pub set_mode-info :
      (add : Bool) (i : CbModeInfo) (args : List Bytes) (ch : Chan)
      → IsInfo i
      → set_mode svc servermode false i.letter (record { add = add; args = args; chan = ch })
        ≡ after_flag svc
            (setter i.getvalue)
            (record { add = add; args = args; chan = set_flag svc add i.flag ch })
  unfolding set_mode
  set_mode-info add i args ch (p, q, low, nobody, e) = rw (p, q, low, nobody, e) refl

  update_same : (f : ℕ → Bool) (n : ℕ) (b : Bool) → f n ≡ b → update f n b ≡ f
  update_same f n b e = fun_ext (λ k. elim (Bool-cases (k == n)) [
    | inl hit ↦ rw hit (sym (ap f ((==_iff k n).0 hit) ∙ e))
    | inr miss ↦ rw miss refl
  ])

  pub set_flag_same : (f : ℕ) (ch : Chan) → ch.mode f ≡ true → set_flag svc true f ch ≡ ch
  unfolding set_flag
  set_flag_same f ch e = ap (λ m. record ch { mode = m }) (update_same ch.mode f true e)

  pub set_at_info :
      (i : CbModeInfo) (o : Option Bytes) (ch : Chan)
      → IsInfo i
      → set_at svc print i.letter o ch ≡ set_value svc (setter i.getvalue) o ch
  set_at_info i o ch (p, q, low, nobody, e) = rw e refl

  take_value :
      (v : GetValue) (w : Bytes) (more : List Bytes) (ch : Chan)
      → has_getter v ≡ true
      → after_flag svc (setter v) (record { add = true; args = w ∷ more; chan = ch })
        ≡ record { add = true; args = more; chan = set_value svc (setter v) (some w) ch }
  take_value no_getter w more ch h = cc
  take_value get_key w more ch h = refl
  take_value get_limit w more ch h = refl

  -- A mode that is set with a value.
  pub value-Replays :
      (i : CbModeInfo) (o : Option Bytes) (w : Bytes) (ch : Chan) (k : Mended)
      → IsInfo i
      → has_getter i.getvalue ≡ true
      → o ≡ some w
      → ((more : List Bytes) → Replays true ch more k)
      → (more : List Bytes)
      → Replays true ch more (record {
        letters = k.letters ++ i.letter ∷ [];
        args = k.args ++ arg_of o;
        chan = set_at svc print i.letter o (set_flag svc true i.flag k.chan);
      })
  value-Replays i o w ch k info v e h more = rw e (
      Replays-snoc true true ch k.letters k.args i.letter (w ∷ []) more k.chan
        (set_at svc print i.letter (some w) (set_flag svc true i.flag k.chan)) (h (w ∷ more))
        (set_mode-info true i (w ∷ more) k.chan info
          ∙ take_value i.getvalue w more (set_flag svc true i.flag k.chan) v
          ∙ ap (λ c. record { add = true; args = more; chan = c })
              (sym (set_at_info i (some w) (set_flag svc true i.flag k.chan) info))))

  pub no_value-Replays :
      (add : Bool) (c f : ℕ) (m : Bool) (ch : Chan) (k : Mended)
      → IsInfo (record { letter = c; flag = f; minus_no_arg = m; getvalue = no_getter })
      → (more : List Bytes) → Replays add ch more k
      → Replays add ch more (record {
        letters = k.letters ++ c ∷ [];
        args = k.args;
        chan = set_flag svc add f k.chan;
      })
  no_value-Replays add c f m ch k info more h =
      subst
        (λ args.
          Replays add ch more (record {
            letters = k.letters ++ c ∷ [];
            args = args;
            chan = set_flag svc add f k.chan;
          }))
        (append-nil k.args)
        (Replays-snoc add add ch k.letters k.args c [] more k.chan (set_flag svc add f k.chan) h (
          set_mode-info add
            (record { letter = c; flag = f; minus_no_arg = m; getvalue = no_getter }) more k.chan
            info))
