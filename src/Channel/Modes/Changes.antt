-- ===== src/Channel/Modes/Changes.antt =====
-- channels.c `chan_set_modes`: a list of changes, written the way a server sends it.
use k9_chatnet.Common.{
  ℕ, ◌≡◌, refl, ap, ◌∙◌, Bool, true, false, List, [], ◌∷◌, ◌++◌, Bytes, none, some, append_assoc,
  All,
}
use k9_chatnet.Channel.Modes.{
  Services, Chan, CbMode, UserMode, no_value, op, voice, cbmodes, cbmode_in, cumode, add_ban,
  del_ban, set_user_mode, set_flag, set_value, set_mode, set_modes, chan_set_modes, has_dot,
}
use k9_chatnet.Channel.Modes.Table.{IsFound, cbmode_in-All, cbmodes-IsFound}

-- One change, without its sign.
pub data Change : Type 0 where
  user : UserMode → Bytes → Change
  flag : CbMode → Change
  key : Bytes → Change
  limit : Bytes → Change
  ban : Bytes → Change

pub record Signed : Type 0 where
  pub add : Bool
  pub change : Change

-- A flag is one of the table, without a value.
abbrev pub IsSimple : Change → Type 0
IsSimple (user um nick) = Unit
IsSimple (flag m) = (cbmode_in m.letter cbmodes ≡ some m) × (m.setvalue ≡ no_value)
IsSimple (key a) = Unit
IsSimple (limit a) = Unit
IsSimple (ban a) = Unit

unfoldable pub letter_of : Change → ℕ
letter_of (user op nick) = b'o'
letter_of (user voice nick) = b'v'
letter_of (flag m) = m.letter
letter_of (key a) = b'k'
letter_of (limit a) = b'l'
letter_of (ban a) = b'b'

-- A limit that is taken away has no argument.
unfoldable pub args_of : Bool → Change → List Bytes
args_of add (user um nick) = nick ∷ []
args_of add (flag m) = []
args_of add (key a) = a ∷ []
args_of true (limit a) = a ∷ []
args_of false (limit a) = []
args_of add (ban a) = a ∷ []

-- A sign stands where it changes; at first it is a plus.
abbrev pub sign_text : Bool → Bool → Bytes
sign_text true true = []
sign_text true false = b'-' ∷ []
sign_text false true = b'+' ∷ []
sign_text false false = []

unfoldable pub changes_text : Bool → List Signed → Bytes
changes_text add [] = []
changes_text add (c ∷ cs) = sign_text add c.add ++ (letter_of c.change ∷ changes_text c.add cs)

unfoldable pub changes_args : List Signed → List Bytes
changes_args [] = []
changes_args (c ∷ cs) = args_of c.add c.change ++ changes_args cs

module _ (svc : Services) where
  -- What a change means.
  pub change_meaning : Bool → Bool → Bool → Change → Chan → Chan
  change_meaning servermode check add (user um nick) ch =
      set_user_mode svc servermode check add um nick ch
  change_meaning servermode check add (flag m) ch = set_flag svc add m.flag ch
  change_meaning servermode check true (key a) ch = record (set_flag svc true 6 ch) { key = some a }
  change_meaning servermode check false (key a) ch = record (set_flag svc false 6 ch) { key = none }
  change_meaning servermode check true (limit a) ch = record (set_flag svc true 7 ch) {
    limit = svc.strtoul a;
  }
  change_meaning servermode check false (limit a) ch = record (set_flag svc false 7 ch) {
    limit = 0;
  }
  change_meaning servermode check true (ban a) ch = add_ban svc a ch
  change_meaning servermode check false (ban a) ch = del_ban svc a ch

  pub changes_meaning : Bool → Bool → List Signed → Chan → Chan
  changes_meaning servermode check [] ch = ch
  changes_meaning servermode check (c ∷ cs) ch =
      changes_meaning servermode check cs (change_meaning servermode check c.add c.change ch)

  set_mode-flag :
      (servermode check add : Bool) (m : CbMode) (rest : List Bytes) (ch : Chan)
      → cbmode_in m.letter cbmodes ≡ some m
      → m.setvalue ≡ no_value
      → set_mode svc servermode check m.letter (record { add = add; args = rest; chan = ch })
        ≡ record { add = add; args = rest; chan = set_flag svc add m.flag ch }
  unfolding set_mode
  set_mode-flag servermode check add m rest ch e v =
      let ((p, q, low, nobody), found) =
        (cbmode_in-All IsFound m.letter m cbmodes cbmodes-IsFound e).0 in
      rw (p, q, low, nobody, e, v) refl

  set_mode-change :
      (servermode check add : Bool) (c : Change) (rest : List Bytes) (ch : Chan)
      → IsSimple c
      → set_mode svc servermode check
          (letter_of c)
          (record { add = add; args = args_of add c ++ rest; chan = ch })
        ≡ record { add = add; args = rest; chan = change_meaning servermode check add c ch }
  unfolding set_mode change_meaning letter_of args_of cumode cbmode_in cbmodes set_value
  set_mode-change servermode check add (user op nick) rest ch h = refl
  set_mode-change servermode check add (user voice nick) rest ch h = refl
  set_mode-change servermode check add (flag m) rest ch (e, v) =
      set_mode-flag servermode check add m rest ch e v
  set_mode-change servermode check true (key a) rest ch h = refl
  set_mode-change servermode check false (key a) rest ch h = refl
  set_mode-change servermode check true (limit a) rest ch h = refl
  set_mode-change servermode check false (limit a) rest ch h = refl
  set_mode-change servermode check true (ban a) rest ch h = refl
  set_mode-change servermode check false (ban a) rest ch h = refl

  set_modes-sign :
      (servermode check old new : Bool) (s : Bytes) (args : List Bytes) (ch : Chan)
      → set_modes svc servermode check
          (sign_text old new ++ s)
          (record { add = old; args = args; chan = ch })
        ≡ set_modes svc servermode check s (record { add = new; args = args; chan = ch })
  unfolding set_modes set_mode
  set_modes-sign servermode check true true s args ch = refl
  set_modes-sign servermode check true false s args ch = refl
  set_modes-sign servermode check false true s args ch = refl
  set_modes-sign servermode check false false s args ch = refl

  set_modes-changes :
      (servermode check add : Bool) (cs : List Signed) (extra : List Bytes) (ch : Chan)
      → All (λ c. IsSimple c.change) cs
      → (set_modes svc servermode check
          (changes_text add cs)
          (record { add = add; args = changes_args cs ++ extra; chan = ch })).chan
        ≡ changes_meaning servermode check cs ch
  unfolding set_modes changes_text changes_args changes_meaning
  set_modes-changes servermode check add [] extra ch h = refl
  set_modes-changes servermode check add (c ∷ cs) extra ch (h, hs) =
      ap (λ k. k.chan)
        (set_modes-sign servermode check add c.add (letter_of c.change ∷ changes_text c.add cs) _
          ch)
      ∙ ap
          (λ args.
            (set_modes svc servermode check (letter_of c.change ∷ changes_text c.add cs)
              (record { add = c.add; args = args; chan = ch })).chan)
          (append_assoc (args_of c.add c.change) (changes_args cs) extra)
      ∙ ap (λ k. (set_modes svc servermode check (changes_text c.add cs) k).chan)
          (set_mode-change servermode check c.add c.change (changes_args cs ++ extra) ch h)
      ∙ set_modes-changes servermode check c.add cs extra
          (change_meaning servermode check c.add c.change ch) hs

  -- Changes that are written in a row, each sign only where it changes, and their arguments in order, are
  -- made in that order, each with its own argument; arguments behind them are not read.
  pub chan_set_modes-changes :
      (check_modes : Chan → Chan) (source : Bytes) (cs : List Signed) (extra : List Bytes)
      (ch : Chan)
      → All (λ c. IsSimple c.change) cs
      → chan_set_modes svc check_modes source
          (changes_text true cs)
          (changes_args cs ++ extra)
          true
          ch
        ≡ check_modes (changes_meaning (has_dot svc source) true cs ch)
  unfolding chan_set_modes
  chan_set_modes-changes check_modes source cs extra ch h =
      ap check_modes (set_modes-changes (has_dot svc source) true true cs extra ch h)
