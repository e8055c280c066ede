-- ===== src/Channel/Modes/Kept.antt =====
-- channels.c `chan_set_modes`: what takes an argument leaves the modes and the sign.
use k9_chatnet.Common.{
  ℕ, ◌≡◌, refl, inl, inr, Bool, true, false, not, ◌&&◌, List, [], ◌∷◌, Bytes, Option, none, some,
  if◌then◌else◌, Bool-cases,
}
use k9_chatnet.Channel.Modes.{
  Services, Chan, Cursor, SetValue, UserMode, no_value, set_key, set_limit, op, voice,
  chan_set_user_status, add_ban, del_ban, set_user_mode, user_mode_of, is_protected, take_arg,
  with_arg, value_of, after_flag, after_limit, set_value,
}

-- What a step may do to a channel without a touch on its modes.
abbrev pub KeepsMode : (Chan → Chan) → Type 0
KeepsMode f = (ch : Chan) → (f ch).mode ≡ ch.mode

module _ (svc : Services) where
  user_mode_of-KeepsMode :
      (servermode check add : Bool) (um : UserMode) (o : Option ℕ)
      → KeepsMode (λ ch. user_mode_of svc servermode check add um ch o)
  unfolding chan_set_user_status
  user_mode_of-KeepsMode servermode check add um none ch = refl
  user_mode_of-KeepsMode servermode check false um (some user) ch = refl
  user_mode_of-KeepsMode servermode check true voice (some user) ch = refl
  user_mode_of-KeepsMode servermode check true op (some user) ch =
      elim (Bool-cases (check && not (svc.check_valid_op ch.net user ch.id servermode))) [
        | inl refused ↦ rw refused refl
        | inr valid ↦ rw valid refl
      ]

  pub set_user_mode-KeepsMode :
      (servermode check add : Bool) (um : UserMode) (nick : Bytes)
      → KeepsMode (set_user_mode svc servermode check add um nick)
  unfolding set_user_mode
  set_user_mode-KeepsMode servermode check add um nick ch =
      elim (Bool-cases (is_protected um && not add && svc.is_bot nick)) [
        | inl bot ↦ rw bot refl
        | inr person ↦
            rw person (user_mode_of-KeepsMode servermode check add um (svc.finduser nick) ch)
      ]

  pub mask-KeepsMode :
      (add : Bool) (a : Bytes) → KeepsMode (if add then add_ban svc a else del_ban svc a)
  unfolding add_ban del_ban
  mask-KeepsMode true a ch = elim (Bool-cases (svc.is_refused a)) [
    | inl refused ↦ rw refused refl
    | inr new ↦ rw new refl
  ]
  mask-KeepsMode false a ch = refl

  pub set_value-KeepsMode : (v : SetValue) (a : Option Bytes) → KeepsMode (set_value svc v a)
  unfolding set_value
  set_value-KeepsMode no_value a ch = refl
  set_value-KeepsMode set_key a ch = refl
  set_value-KeepsMode set_limit a ch = refl

  pub take_arg-KeepsMode :
      (f : Bytes → Chan → Chan) (k : Cursor)
      → ((a : Bytes) → KeepsMode (f a))
      → (take_arg f k).chan.mode ≡ k.chan.mode
  take_arg-KeepsMode f k h = go k.args
    where
      go : (args : List Bytes) → (with_arg f k args).chan.mode ≡ k.chan.mode
      go [] = refl
      go (a ∷ rest) = h a k.chan

  after_limit-mode : (add : Bool) (k : Cursor) → (after_limit svc add k).chan.mode ≡ k.chan.mode
  after_limit-mode true k =
      take_arg-KeepsMode (λ a. set_value svc set_limit (some a)) k
        (λ a. set_value-KeepsMode set_limit (some a))
  after_limit-mode false k = set_value-KeepsMode set_limit none k.chan

  pub after_flag-mode : (v : SetValue) (k : Cursor) → (after_flag svc v k).chan.mode ≡ k.chan.mode
  after_flag-mode no_value k = refl
  after_flag-mode set_key k =
      take_arg-KeepsMode (λ a. set_value svc set_key (value_of svc k.add a)) k
        (λ a. set_value-KeepsMode set_key (value_of svc k.add a))
  after_flag-mode set_limit k = after_limit-mode k.add k

  pub take_arg-add : (f : Bytes → Chan → Chan) (k : Cursor) → (take_arg f k).add ≡ k.add
  take_arg-add f k = go k.args
    where
      go : (args : List Bytes) → (with_arg f k args).add ≡ k.add
      go [] = refl
      go (a ∷ rest) = refl

  after_limit-add : (add : Bool) (k : Cursor) → (after_limit svc add k).add ≡ k.add
  after_limit-add true k = take_arg-add (λ a. set_value svc set_limit (some a)) k
  after_limit-add false k = refl

  pub after_flag-add : (v : SetValue) (k : Cursor) → (after_flag svc v k).add ≡ k.add
  after_flag-add no_value k = refl
  after_flag-add set_key k = take_arg-add (λ a. set_value svc set_key (value_of svc k.add a)) k
  after_flag-add set_limit k = after_limit-add k.add k
