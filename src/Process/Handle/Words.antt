-- ===== src/Process/Handle/Words.antt =====
-- process.c: what `process` makes of a line, by the line's words.
use k9_chatnet.Common.{
  ℕ, zero, suc, ◌≡◌, refl, sym, ap, ◌∙◌, inl, inr, true, false, List, [], ◌∷◌, ◌++◌, Bytes, Option,
  none, some, peek, take, ◌==◌, ==_iff, if◌then◌else◌, Bool-cases, All, All-append, arith,
}
use k9_chatnet.Text.Number.{skip_spaces, is_space}
use k9_chatnet.Text.Clean.{words, joined, do_clean_buffer-words}
use k9_chatnet.Process.Split.{
  split_buf, split_buf-line, Tail, nothing, last_word, trailing, IsLine, line_text, line_args,
  NoSpace,
}
use k9_chatnet.User.Table.{rest_of}
use k9_chatnet.Dispatch.{MessageTable, find_message}
use k9_chatnet.Process.Handle.{
  State, Handlers, break_at, source_found, take_source, command_found, second, call_first, handle,
  handle_line, process,
}

-- The arguments are words, up to one with a colon in front, which begins the last argument.
unfoldable pub args_of : List Bytes → List Bytes
args_of [] = []
args_of (w ∷ ws) = if peek w == b':' then joined (rest_of w ∷ ws) ∷ [] else w ∷ args_of ws

abbrev pub command_of : Bytes → List Bytes → Option (Bytes × Bytes × List Bytes)
command_of source [] = none
command_of source (w ∷ ws) = some (source, take 63 w, args_of ws)

-- The source, the command and the arguments, if there is a command.
unfoldable pub line_of : List Bytes → Option (Bytes × Bytes × List Bytes)
line_of [] = none
line_of (w ∷ ws) =
    if peek w == b':' then command_of (take 63 (rest_of w)) ws else command_of [] (w ∷ ws)

-- A word has a byte, and no white space.
abbrev pub IsWord : Bytes → Type 0
IsWord [] = ⊥
IsWord (c ∷ w) = All (λ (d : ℕ). is_space d ≡ false) (c ∷ w)

-- The only white space are spaces.
abbrev pub HasNoTab : Bytes → Type 0
HasNoTab s = All (λ (c : ℕ). is_space c ≡ (c == b' ')) s

words-IsWord :
    (s : Bytes)
    → HasNoTab s
    → All IsWord (words [] s)
      × ((a : ℕ) (word : Bytes)
          → All (λ (d : ℕ). is_space d ≡ false) (a ∷ word)
          → All IsWord (words (a ∷ word) s))
unfolding words
words-IsWord [] h = (tt, λ a word k. (k, tt))
words-IsWord (c ∷ s) (h, hs) =
    let (ended, begun) = words-IsWord s hs in
    elim (Bool-cases (c == b' ')) [
      | inl space ↦ (rw space ended, λ a word k. rw space (k, ended))
      | inr other ↦ (
        rw other (begun c [] (h ∙ other, tt)),
        λ a word k. rw other (
            begun a (word ++ c ∷ []) (
              k.0,
              (All-append (λ (d : ℕ). is_space d ≡ false) word (c ∷ [])).1 (k.1, (h ∙ other, tt)),
            )),
      )
    ]

All-take : (P : ℕ → Type 0) (n : ℕ) (s : Bytes) → All P s → All P (take n s)
All-take P zero s h = tt
All-take P (suc n) [] h = tt
All-take P (suc n) (c ∷ s) (h, hs) = (h, All-take P n s hs)

space_not : (c : ℕ) → is_space c ≡ false → (c == b' ') ≡ false
space_not c h = ground arith

break_at-word : (w : Bytes) → All (λ (d : ℕ). is_space d ≡ false) w → break_at w ≡ (w, none)
unfolding break_at
break_at-word [] h = refl
break_at-word (c ∷ w) (h, hs) = rw (space_not c h, break_at-word w hs) refl

break_at-words :
    (w s : Bytes) → All (λ (d : ℕ). is_space d ≡ false) w → break_at (w ++ b' ' ∷ s) ≡ (w, some s)
unfolding break_at
break_at-words [] s h = refl
break_at-words (c ∷ w) s (h, hs) = rw (space_not c h, break_at-words w s hs) refl

-- The words in the shape that `split_buf-line` takes.
colon_view : Bytes → List Bytes → List (Bytes × ℕ) × Tail
colon_view w ws = ([], trailing (joined (rest_of w ∷ ws)))

word_view : Bytes → List Bytes → List (Bytes × ℕ) × Tail → List (Bytes × ℕ) × Tail
word_view w [] p = ([], last_word w)
word_view w (v ∷ ws) (l, t) = ((w, 0) ∷ l, t)

line_view : List Bytes → List (Bytes × ℕ) × Tail
line_view [] = ([], nothing)
line_view (w ∷ ws) =
    let later = line_view ws in if peek w == b':' then colon_view w ws else word_view w ws later

abbrev Views : List Bytes → List (Bytes × ℕ) × Tail → Type 0
Views ws (l, t) = IsLine l t × (line_text l t ≡ joined ws) × (line_args l t ≡ args_of ws)

joined_colon : (w : Bytes) (ws : List Bytes) → b':' ∷ joined (w ∷ ws) ≡ joined ((b':' ∷ w) ∷ ws)
unfolding joined
joined_colon w [] = refl
joined_colon w (v ∷ ws) = refl

no_space : (w : Bytes) → All (λ (d : ℕ). is_space d ≡ false) w → NoSpace w
no_space [] h = tt
no_space (c ∷ w) (h, hs) = (space_not c h, no_space w hs)

word_view-Views :
    (c : ℕ) (w : Bytes) (ws : List Bytes) (p : List (Bytes × ℕ) × Tail)
    → (c == b':') ≡ false
    → All (λ (d : ℕ). is_space d ≡ false) (c ∷ w)
    → Views ws p
    → let (l, t) = word_view (c ∷ w) ws p in
      IsLine l t × (line_text l t ≡ joined ((c ∷ w) ∷ ws)) × (line_args l t ≡ (c ∷ w) ∷ args_of ws)
unfolding joined args_of word_view
word_view-Views c w [] p e h v = ((e, no_space (c ∷ w) h), refl, refl)
word_view-Views c w (v ∷ ws) (l, t) e h (line, text, args) = (
  ((e, no_space (c ∷ w) h), line),
  ap (λ (s : Bytes). (c ∷ w) ++ b' ' ∷ s) text,
  ap (◌∷◌ (c ∷ w)) args,
)

line_view-Views : (ws : List Bytes) → All IsWord ws → Views ws (line_view ws)
unfolding joined args_of line_view colon_view
line_view-Views [] h = (tt, refl, refl)
line_view-Views ([] ∷ ws) (h, hs) = absurd h
line_view-Views ((c ∷ w) ∷ ws) (h, hs) = elim (Bool-cases (c == b':')) [
  | inl colon ↦ rw colon (
    tt,
    joined_colon w ws ∙ ap (λ (d : ℕ). joined ((d ∷ w) ∷ ws)) (sym ((==_iff c b':').0 colon)),
    refl,
  )
  | inr other ↦ rw other (word_view-Views c w ws (line_view ws) other h (line_view-Views ws hs))
]

split_buf-joined :
    (ws : List Bytes) → All IsWord ws → split_buf (joined ws) true ≡ some (args_of ws)
split_buf-joined ws h =
    let (l, t) = line_view ws in
    let (line, text, args) = line_view-Views ws h in
    ap (λ s. split_buf s true) (sym text) ∙ split_buf-line l t true line ∙ ap some args

peek-joined : (c : ℕ) (w : Bytes) (ws : List Bytes) → peek (joined ((c ∷ w) ∷ ws)) ≡ c
unfolding joined
peek-joined c w [] = refl
peek-joined c w (v ∷ ws) = refl

skip_spaces-text : (s : Bytes) → is_space (peek s) ≡ false → skip_spaces s ≡ s
unfolding skip_spaces
skip_spaces-text [] h = refl
skip_spaces-text (c ∷ s) h = rw h refl

skip_spaces-joined : (ws : List Bytes) → All IsWord ws → skip_spaces (joined ws) ≡ joined ws
unfolding joined
skip_spaces-joined [] h = skip_spaces-text [] refl
skip_spaces-joined ([] ∷ ws) (h, hs) = absurd h
skip_spaces-joined ((c ∷ w) ∷ ws) (h, hs) =
    skip_spaces-text (joined ((c ∷ w) ∷ ws)) (ap is_space (peek-joined c w ws) ∙ h.0)

module _ {W : Type 0} (call : Handlers W) (table : MessageTable) (st : State W) where
  -- The state behind the handlers of a command.
  unfoldable pub handled : Option (Bytes × Bytes × List Bytes) → State W
  handled none = st
  handled (some (source, cmd, av)) =
      call_first call source av (find_message table cmd)
        (record st { mod_current_buffer = second av })

  handle_line-joined :
      (source : Bytes) (ws : List Bytes)
      → All IsWord ws
      → handle_line call table (some (source, joined ws)) st ≡ some (handled (command_of source ws))
  unfolding joined handled
  handle_line-joined source [] h = refl
  handle_line-joined source ([] ∷ ws) (h, hs) = absurd h
  handle_line-joined source ((c ∷ w) ∷ []) (h, hs) =
      ap
        (λ (b : Bytes × Option Bytes).
          let (cmd, s) = command_found b in handle call table source cmd (split_buf s true) st)
        (break_at-word (c ∷ w) h)
      ∙ ap (λ o. handle call table source (take 63 (c ∷ w)) o st) (split_buf-joined [] tt)
  handle_line-joined source ((c ∷ w) ∷ v ∷ ws) (h, hs) =
      ap
        (λ (b : Bytes × Option Bytes).
          let (cmd, s) = command_found b in handle call table source cmd (split_buf s true) st)
        (break_at-words (c ∷ w) (joined (v ∷ ws)) h)
      ∙ ap (λ s. handle call table source (take 63 (c ∷ w)) (split_buf s true) st)
          (skip_spaces-joined (v ∷ ws) hs)
      ∙ ap (λ o. handle call table source (take 63 (c ∷ w)) o st) (split_buf-joined (v ∷ ws) hs)

  source_found-joined :
      (w : Bytes) (ws : List Bytes)
      → All IsWord (w ∷ ws)
      → handle_line call table (source_found (break_at (joined (w ∷ ws)))) st
        ≡ some (handled (command_of (take 63 (rest_of w)) ws))
  unfolding joined handled
  source_found-joined [] ws (h, hs) = absurd h
  source_found-joined (c ∷ w) [] (h, hs) =
      ap (λ b. handle_line call table (source_found b) st) (break_at-word (c ∷ w) h)
  source_found-joined (c ∷ w) (v ∷ ws) (h, hs) =
      ap (λ b. handle_line call table (source_found b) st)
        (break_at-words (c ∷ w) (joined (v ∷ ws)) h)
      ∙ ap (λ s. handle_line call table (some (take 63 w, s)) st) (skip_spaces-joined (v ∷ ws) hs)
      ∙ handle_line-joined (take 63 w) (v ∷ ws) hs

  take_source-joined :
      (ws : List Bytes)
      → All IsWord ws
      → handle_line call table (take_source (joined ws)) st ≡ some (handled (line_of ws))
  unfolding take_source line_of handled
  take_source-joined [] h = unfold joined in refl
  take_source-joined ([] ∷ ws) (h, hs) = absurd h
  take_source-joined ((c ∷ w) ∷ ws) (h, hs) = elim (Bool-cases (c == b':')) [
    | inl colon ↦ rw (peek-joined c w ws, colon) (source_found-joined (c ∷ w) ws (h, hs))
    | inr other ↦ rw (peek-joined c w ws, other) (handle_line-joined [] ((c ∷ w) ∷ ws) (h, hs))
  ]

  -- `process` takes the first 511 bytes of a line for a source, a command and arguments by the line's words, however many
  -- spaces are between them, and the handlers of the command get these, each at its greatest
  -- length: a first word with a colon is the source, and an argument with a colon goes on to the end of the
  -- line. A line without a command changes nothing. The line has no white space but spaces.
  pub process-words :
      (inbuf : Bytes)
      → HasNoTab inbuf
      → process call table inbuf st ≡ some (handled (line_of (words [] (take 511 inbuf))))
  unfolding process
  process-words inbuf h =
      let buf = take 511 inbuf in
      let all = (words-IsWord buf (All-take (λ c. is_space c ≡ (c == b' ')) 511 inbuf h)).0 in
      ap (λ s. handle_line call table (take_source s) st) (do_clean_buffer-words buf)
      ∙ take_source-joined (words [] buf) all
