-- ===== src/ChanServ/Check/Meaning.antt =====
-- chanserv.c `check_modes`: what its loops do to the modes.
use k9_chatnet.Common.{
  arith, ℕ, zero, suc, ◌<◌, ◌≡◌, refl, sym, ap, subst, ◌∙◌, inl, inr, Bool, true, false, ◌&&◌, ◌||◌,
  not, List, [], ◌∷◌, Bytes, none, ◌==◌, ==_iff, if◌then◌else◌, Bool-cases,
}
use k9_chatnet.Channel.{update}
use k9_chatnet.Channel.Modes.{Services, set_flag}
use k9_chatnet.Channel.Modes.Kept.{set_value-KeepsMode}
use k9_chatnet.ChanServ.{ModeLock}
use k9_chatnet.ChanServ.Check.{
  GetValue, no_getter, get_key, get_limit, CbModeInfo, cbmodeinfos, value_on, value_in, Mended,
  has_getter, differ, set_missing, clear_set, lock_on, lock_on_all, lock_off, lock_off_all,
  ends_with, drop_plus, some_flag,
}

-- The flag is one that ChanServ knows.
unfoldable pub is_listed : ℕ → List CbModeInfo → Bool
is_listed f [] = false
is_listed f (i ∷ is) = if f == i.flag then true else is_listed f is

module _ (svc : Services) (print : ℕ → Bytes) where
  -- The value is set behind the mode.
  set_missing-mode :
      (c g : ℕ) (m : Bool) (v : GetValue) (ci : ModeLock) (k : Mended)
      → (set_missing svc print
          (record { letter = c; flag = g; minus_no_arg = m; getvalue = v })
          ci
          k).chan.mode
        ≡ update k.chan.mode g true
  unfolding set_flag
  set_missing-mode c g m no_getter ci k = refl
  set_missing-mode c g m get_key ci k = set_value-KeepsMode svc _ _ (set_flag svc true g k.chan)
  set_missing-mode c g m get_limit ci k = set_value-KeepsMode svc _ _ (set_flag svc true g k.chan)

  clear_set-mode :
      (c g : ℕ) (m : Bool) (v : GetValue) (k : Mended)
      → (clear_set svc print
          (record { letter = c; flag = g; minus_no_arg = m; getvalue = v })
          k).chan.mode
        ≡ update k.chan.mode g false
  unfolding set_flag
  clear_set-mode c g m no_getter k = refl
  clear_set-mode c g m get_key k = set_value-KeepsMode svc _ none (set_flag svc false g k.chan)
  clear_set-mode c g m get_limit k = set_value-KeepsMode svc _ none (set_flag svc false g k.chan)

  lock_on-mode :
      (modes : ℕ → Bool) (ci : ModeLock) (i : CbModeInfo) (k : Mended)
      → (lock_on svc print modes ci i k).chan.mode
        ≡ (if modes i.flag then update k.chan.mode i.flag true else k.chan.mode)
  unfolding lock_on
  lock_on-mode modes ci i k = elim (Bool-cases (modes i.flag)) [
    | inl hit ↦ rw hit (set_missing-mode i.letter i.flag i.minus_no_arg i.getvalue ci k)
    | inr miss ↦
        elim (Bool-cases (
          (has_getter i.getvalue && ci.mlock_on i.flag && k.chan.mode i.flag)
          && differ (value_on print i.getvalue k.chan) (value_in print i.getvalue ci))) [
            | inl wrong ↦ rw (miss, wrong) (set_value-KeepsMode svc _ _ k.chan)
            | inr right ↦ rw (miss, right) refl
          ]
  ]

  lock_off-mode :
      (modes : ℕ → Bool) (i : CbModeInfo) (k : Mended)
      → (lock_off svc print modes i k).chan.mode
        ≡ (if modes i.flag then update k.chan.mode i.flag false else k.chan.mode)
  unfolding lock_off
  lock_off-mode modes i k = elim (Bool-cases (modes i.flag)) [
    | inl hit ↦ rw hit (clear_set-mode i.letter i.flag i.minus_no_arg i.getvalue k)
    | inr miss ↦ rw miss refl
  ]

if_same : (t b : Bool) → (if t then b else b) ≡ b
if_same true b = refl
if_same false b = refl

and_true_right : (t : Bool) → (t && true) ≡ t
and_true_right true = refl
and_true_right false = refl

pub and_false_right : (t : Bool) → (t && false) ≡ false
and_false_right true = refl
and_false_right false = refl

-- A flag behind one entry of a loop that gives the entries of `modes` the value `b`, and the other entries of the list.
one_entry :
    (b : Bool) (modes mode : ℕ → Bool) (f g : ℕ) (later : Bool)
    → (if later && modes f then b else (if modes g then update mode g b else mode) f)
      ≡ (if (if f == g then true else later) && modes f then b else mode f)
one_entry b modes mode f g later = elim (Bool-cases (f == g)) [
  | inl hit ↦ elim (Bool-cases (modes f)) [
    | inl set ↦
        let e : modes g ≡ true = subst (λ x. modes x ≡ true) ((==_iff f g).0 hit) set in
        rw (set, e) (rw hit (if_same (later && true) b))
    | inr clear ↦
        let e : modes g ≡ false = subst (λ x. modes x ≡ false) ((==_iff f g).0 hit) clear in
        rw (clear, e)
          (rw (and_false_right later, and_false_right (if f == g then true else later)) refl)
  ]
  | inr miss ↦ elim (Bool-cases (modes g)) [
    | inl set ↦ rw (set, miss) refl
    | inr clear ↦ rw (clear, miss) refl
  ]
]

module _ (svc : Services) (print : ℕ → Bytes) where
  pub lock_on_all-mode :
      (modes : ℕ → Bool) (ci : ModeLock) (is : List CbModeInfo) (k : Mended) (f : ℕ)
      → (lock_on_all svc print modes ci is k).chan.mode f
        ≡ (if is_listed f is && modes f then true else k.chan.mode f)
  unfolding lock_on_all is_listed
  lock_on_all-mode modes ci [] k f = refl
  lock_on_all-mode modes ci (i ∷ is) k f =
      lock_on_all-mode modes ci is (lock_on svc print modes ci i k) f
      ∙ ap (λ (m : ℕ → Bool). if is_listed f is && modes f then true else m f)
          (lock_on-mode svc print modes ci i k)
      ∙ one_entry true modes k.chan.mode f i.flag (is_listed f is)

  pub lock_off_all-mode :
      (modes : ℕ → Bool) (is : List CbModeInfo) (k : Mended) (f : ℕ)
      → (lock_off_all svc print modes is k).chan.mode f
        ≡ (if is_listed f is && modes f then false else k.chan.mode f)
  unfolding lock_off_all is_listed
  lock_off_all-mode modes [] k f = refl
  lock_off_all-mode modes (i ∷ is) k f =
      lock_off_all-mode modes is (lock_off svc print modes i k) f
      ∙ ap (λ (m : ℕ → Bool). if is_listed f is && modes f then false else m f)
          (lock_off-mode svc print modes i k)
      ∙ one_entry false modes k.chan.mode f i.flag (is_listed f is)

pub drop_plus-chan : (k : Mended) → (drop_plus k).chan ≡ k.chan
unfolding drop_plus
drop_plus-chan k = elim (Bool-cases (ends_with b'+' k.letters)) [
  | inl plus ↦ rw plus refl
  | inr other ↦ rw other refl
]

pub some_flag-none :
    (n : ℕ) (modes : ℕ → Bool) (f : ℕ) → some_flag n modes ≡ false → f < n → modes f ≡ false
unfolding some_flag
some_flag-none zero modes f e h = ground arith
some_flag-none (suc n) modes f e h = elim (Bool-cases (modes n)) [
  | inl set ↦ let wrong : true ≡ false = sym (rw set refl) ∙ e in cc
  | inr clear ↦ elim (Bool-cases (f == n)) [
    | inl here ↦ rw ((==_iff f n).0 here) clear
    | inr there ↦ some_flag-none n modes f (sym (rw clear refl) ∙ e) (ground arith)
  ]
]

pub is_listed-small : (f : ℕ) → is_listed f cbmodeinfos ≡ true → f < 32
unfolding is_listed cbmodeinfos
is_listed-small f e = ground arith

-- A flag behind both loops: `m` before them, locked on by `on`, off by `off`.
pub both_loops :
    (listed m on off : Bool)
    → (if listed && ((if listed && (not m && on) then true else m) && off)
        then false
        else if listed && (not m && on)
        then true
        else m)
      ≡ (if listed then (m || on) && not off else m)
both_loops true true on true = refl
both_loops true true on false = refl
both_loops true false true true = refl
both_loops true false true false = refl
both_loops true false false true = refl
both_loops true false false false = refl
both_loops false m on off = refl
