-- ===== src/Channel/Modes/Signs.antt =====
-- channels.c `chan_set_modes`: the sign in front of a letter.
use k9_chatnet.Common.{
  ℕ, ◌≡◌, refl, sym, ap, subst, ◌∙◌, inl, inr, Bool, true, false, List, [], ◌∷◌, Bytes, Option,
  none, some, ◌==◌, ==_iff, ==-refl, leb, if◌then◌else◌, Bool-cases,
}
use k9_chatnet.Channel.Modes.{
  Services, Chan, Cursor, CbMode, UserMode, cbmodes, cbmode_in, cumode, add_ban, del_ban,
  set_user_mode, set_cbmode, set_cumode, set_flag, set_mode, set_modes, chan_set_modes, has_dot,
}
use k9_chatnet.Channel.Modes.Table.{
  IsPlain, IsFound, cbmode_in-All, cbmodes-IsFound, differ_letters,
}
use k9_chatnet.Channel.Modes.Kept.{
  set_user_mode-KeepsMode, mask-KeepsMode, take_arg-KeepsMode, after_flag-mode, take_arg-add,
  after_flag-add,
}

-- The sign behind a byte of the modes.
abbrev pub sign : ℕ → Bool → Bool
sign d add = if d == b'+' then true else if d == b'-' then false else add

-- The sign of the last place at which a letter stands, if there is one.
unfoldable pub last_sign : ℕ → Bool → Option Bool → Bytes → Option Bool
last_sign c add found [] = found
last_sign c add found (d ∷ s) = last_sign c (sign d add) (if d == c then some add else found) s

abbrev pub pick : Option Bool → Bool → Bool
pick none b = b
pick (some a) b = a

module _ (svc : Services) where
  -- A letter moves the modes only at the flag of its entry.
  set_cbmode-mode :
      (d : ℕ) (m : CbMode) (k : Cursor) (o : Option CbMode)
      → ((n : CbMode) → o ≡ some n → (m.flag == n.flag) ≡ false)
      → (set_cbmode svc d k o).chan.mode m.flag ≡ k.chan.mode m.flag
  set_cbmode-mode d m k none h = elim (Bool-cases (d == b'b')) [
    | inl ban ↦ rw ban (
        ap (λ f. f m.flag)
          (take_arg-KeepsMode svc (λ a. if k.add then add_ban svc a else del_ban svc a) k
            (mask-KeepsMode svc k.add)))
    | inr other ↦ rw other refl
  ]
  set_cbmode-mode d m k (some n) h =
      ap (λ f. f m.flag)
        (after_flag-mode svc n.setvalue (record k { chan = set_flag svc k.add n.flag k.chan }))
      ∙ unfold set_flag in rw (h n refl) refl

  set_cumode-mode :
      (servermode check : Bool) (d : ℕ) (m : CbMode) (k : Cursor) (o : Option UserMode)
      → ((n : CbMode) → cbmode_in d cbmodes ≡ some n → (m.flag == n.flag) ≡ false)
      → (set_cumode svc servermode check d k o).chan.mode m.flag ≡ k.chan.mode m.flag
  set_cumode-mode servermode check d m k (some um) h =
      ap (λ f. f m.flag)
        (take_arg-KeepsMode svc (set_user_mode svc servermode check k.add um) k
          (set_user_mode-KeepsMode svc servermode check k.add um))
  set_cumode-mode servermode check d m k none h = set_cbmode-mode d m k (cbmode_in d cbmodes) h

  set_mode-other :
      (servermode check : Bool) (d : ℕ) (m : CbMode) (k : Cursor)
      → ((n : CbMode) → cbmode_in d cbmodes ≡ some n → (m.flag == n.flag) ≡ false)
      → (set_mode svc servermode check d k).chan.mode m.flag ≡ k.chan.mode m.flag
  unfolding set_mode
  set_mode-other servermode check d m k h = elim (Bool-cases (d == b'+')) [
    | inl plus ↦ rw plus refl
    | inr p ↦ elim (Bool-cases (d == b'-')) [
      | inl minus ↦ rw (p, minus) refl
      | inr q ↦ elim (Bool-cases (leb 128 d)) [
        | inl high ↦ rw (p, q, high) refl
        | inr low ↦ rw (p, q, low) (set_cumode-mode servermode check d m k (cumode d) h)
      ]
    ]
  ]

  set_mode-own :
      (servermode check : Bool) (m : CbMode) (k : Cursor)
      → IsPlain m
      → cbmode_in m.letter cbmodes ≡ some m
      → (set_mode svc servermode check m.letter k).chan.mode m.flag ≡ k.add
  unfolding set_mode
  set_mode-own servermode check m k (p, q, low, nobody) e =
      rw (p, q, low, nobody, e)
        (ap (λ f. f m.flag)
            (after_flag-mode svc m.setvalue (record k { chan = set_flag svc k.add m.flag k.chan }))
          ∙ unfold set_flag in rw (==-refl m.flag) refl)

  set_mode-mode :
      (servermode check : Bool) (c d : ℕ) (m : CbMode) (k : Cursor)
      → cbmode_in c cbmodes ≡ some m
      → (set_mode svc servermode check d k).chan.mode m.flag
        ≡ (if d == c then k.add else k.chan.mode m.flag)
  set_mode-mode servermode check c d m k e = elim (Bool-cases (d == c)) [
    | inl hit ↦
        let (found, letter) = cbmode_in-All IsFound c m cbmodes cbmodes-IsFound e in
        rw hit (
          subst (λ l. (set_mode svc servermode check l k).chan.mode m.flag ≡ k.add)
            (letter ∙ sym ((==_iff d c).0 hit))
            (set_mode-own servermode check m k found.0
              (subst (λ l. cbmode_in l cbmodes ≡ some m) (sym letter) e)))
    | inr miss ↦ rw miss (
        set_mode-other servermode check d m k (λ n f. elim (Bool-cases (m.flag == n.flag)) [
          | inr differ ↦ differ
          | inl same ↦ absurd (differ_letters c d m n e f ((==_iff m.flag n.flag).0 same) miss)
        ]))
  ]

  set_cbmode-add : (d : ℕ) (k : Cursor) (o : Option CbMode) → (set_cbmode svc d k o).add ≡ k.add
  set_cbmode-add d k (some m) =
      after_flag-add svc m.setvalue (record k { chan = set_flag svc k.add m.flag k.chan })
  set_cbmode-add d k none = elim (Bool-cases (d == b'b')) [
    | inl ban ↦ rw ban (take_arg-add svc (λ a. if k.add then add_ban svc a else del_ban svc a) k)
    | inr other ↦ rw other refl
  ]

  set_cumode-add :
      (servermode check : Bool) (d : ℕ) (k : Cursor) (o : Option UserMode)
      → (set_cumode svc servermode check d k o).add ≡ k.add
  set_cumode-add servermode check d k (some um) =
      take_arg-add svc (set_user_mode svc servermode check k.add um) k
  set_cumode-add servermode check d k none = set_cbmode-add d k (cbmode_in d cbmodes)

  pub set_mode-add :
      (servermode check : Bool) (d : ℕ) (k : Cursor)
      → (set_mode svc servermode check d k).add ≡ sign d k.add
  unfolding set_mode
  set_mode-add servermode check d k = elim (Bool-cases (d == b'+')) [
    | inl plus ↦ rw plus refl
    | inr p ↦ elim (Bool-cases (d == b'-')) [
      | inl minus ↦ rw (p, minus) refl
      | inr q ↦ elim (Bool-cases (leb 128 d)) [
        | inl high ↦ rw (p, q, high) refl
        | inr low ↦ rw (p, q, low) (set_cumode-add servermode check d k (cumode d))
      ]
    ]
  ]

  set_modes-last_sign :
      (servermode check : Bool) (c : ℕ) (m : CbMode) (x : Bool) (s : Bytes) (k : Cursor)
      (last : Option Bool)
      → cbmode_in c cbmodes ≡ some m
      → k.chan.mode m.flag ≡ pick last x
      → (set_modes svc servermode check s k).chan.mode m.flag ≡ pick (last_sign c k.add last s) x
  unfolding set_modes last_sign
  set_modes-last_sign servermode check c m x [] k last e h = h
  set_modes-last_sign servermode check c m x (d ∷ s) k last e h =
      set_modes-last_sign servermode check c m x s (set_mode svc servermode check d k)
        (if d == c then some k.add else last) e (set_mode-mode servermode check c d m k e ∙ now)
      ∙ ap (λ add. pick (last_sign c add (if d == c then some k.add else last) s) x)
          (set_mode-add servermode check d k)
    where
      now :
          (if d == c then k.add else k.chan.mode m.flag)
          ≡ pick (if d == c then some k.add else last) x
      now = elim (Bool-cases (d == c)) [ inl hit ↦ rw hit refl | inr miss ↦ rw miss h ]

  -- Whatever the arguments are, and whether or not there are enough of them, a mode is set as the sign
  -- in front of the last place of its letter says, and stays where the letter does not occur, before
  -- ChanServ's check.
  pub chan_set_modes-last_sign :
      (check_modes : Chan → Chan) (source s : Bytes) (args : List Bytes) (c : ℕ) (m : CbMode)
      (ch : Chan)
      → cbmode_in c cbmodes ≡ some m
      → (chan_set_modes svc check_modes source s args false ch).mode m.flag
        ≡ pick (last_sign c true none s) (ch.mode m.flag)
  unfolding chan_set_modes
  chan_set_modes-last_sign check_modes source s args c m ch e =
      set_modes-last_sign (has_dot svc source) false c m (ch.mode m.flag) s
        (record { add = true; args = args; chan = ch }) none e refl
