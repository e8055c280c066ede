-- ===== src/Process/Split.antt =====
-- process.c `split_buf`. The vector of pointers into the buffer is the list of the arguments' texts; its
-- growth by eight is left out.
use k9_chatnet.Common.{
  ℕ, zero, suc, ◌≤◌, ◌<◌, ◌≡◌, refl, ap, ◌∙◌, Bool, false, List, [], ◌∷◌, ◌++◌, Bytes, Option, none,
  some, arith, length, length-append, Bool-cases, inl, inr, ◌==◌, if◌then◌else◌, replicate,
}

-- `while (*s == ' ') s++;`
unfoldable pub skip_blanks : Bytes → Bytes
skip_blanks [] = []
skip_blanks (c ∷ s) = if c == b' ' then skip_blanks s else c ∷ s

-- The bytes before the first space, and what follows the spaces; nothing where there is no space.
unfoldable pub next_word : Bytes → Bytes × Bytes
unfolding skip_blanks
next_word [] = ([], [])
next_word (c ∷ s) =
    let (word, rest) = next_word s in if c == b' ' then ([], skip_blanks s) else (c ∷ word, rest)

abbrev pub argument : Bytes → Option (List Bytes) → Option (List Bytes)
argument word none = none
argument word (some args) = some (word ∷ args)

abbrev pub word_and : (Bytes → Option (List Bytes)) → Bytes × Bytes → Option (List Bytes)
word_and again (word, rest) = argument word (again rest)

-- The loop; `none` is the end of the fuel. The parameter `colon_special` is not read.
unfoldable pub split_loop : ℕ → Bytes → Option (List Bytes)
unfolding next_word
split_loop zero buf = none
split_loop (suc fuel) [] = some []
split_loop (suc fuel) (c ∷ s) =
    if c == b':' then some (s ∷ []) else word_and (split_loop fuel) (next_word (c ∷ s))

unfoldable pub split_buf : Bytes → Bool → Option (List Bytes)
split_buf buf colon_special = split_loop (suc (length buf)) buf

-- No space is in the word.
abbrev pub NoSpace : Bytes → Type 0
NoSpace [] = Unit
NoSpace (c ∷ w) = ((c == b' ') ≡ false) × NoSpace w

-- A middle argument: not empty, without a space, and not with a colon in front.
abbrev pub IsMiddle : Bytes → Type 0
IsMiddle [] = ⊥
IsMiddle (c ∷ w) = ((c == b':') ≡ false) × NoSpace (c ∷ w)

-- The end of a line: nothing, a middle argument, or a colon and any text.
pub data Tail : Type 0 where
  nothing : Tail
  last_word : Bytes → Tail
  trailing : Bytes → Tail

abbrev pub IsTail : Tail → Type 0
IsTail nothing = Unit
IsTail (last_word w) = IsMiddle w
IsTail (trailing t) = Unit

abbrev pub tail_text : Tail → Bytes
tail_text nothing = []
tail_text (last_word w) = w
tail_text (trailing t) = b':' ∷ t

abbrev pub tail_args : Tail → List Bytes
tail_args nothing = []
tail_args (last_word w) = w ∷ []
tail_args (trailing t) = t ∷ []

-- Arguments, each with the number of spaces behind the first that follows it, and the end.
abbrev pub line_text : List (Bytes × ℕ) → Tail → Bytes
line_text [] t = tail_text t
line_text ((w, n) ∷ ws) t = w ++ b' ' ∷ (replicate n b' ' ++ line_text ws t)

abbrev pub line_args : List (Bytes × ℕ) → Tail → List Bytes
line_args [] t = tail_args t
line_args ((w, n) ∷ ws) t = w ∷ line_args ws t

length-skip_blanks : (s : Bytes) → length (skip_blanks s) ≤ length s
unfolding skip_blanks
length-skip_blanks [] = omega arith
length-skip_blanks (c ∷ s) = ground (arith, length-skip_blanks s)

length-next_word : (c : ℕ) (s : Bytes) → length (next_word (c ∷ s)).1 ≤ length s
unfolding next_word
length-next_word c [] = ground arith
length-next_word c (d ∷ s) = ground (arith, length-skip_blanks (d ∷ s), length-next_word d s)

-- Bytes that are not skipped: none, or one that is no space.
abbrev StartsText : Bytes → Type 0
StartsText [] = Unit
StartsText (c ∷ s) = (c == b' ') ≡ false

skip_blanks-replicate : (n : ℕ) (s : Bytes) → StartsText s → skip_blanks (replicate n b' ' ++ s) ≡ s
unfolding skip_blanks
skip_blanks-replicate zero [] h = refl
skip_blanks-replicate zero (c ∷ s) h = rw h
skip_blanks-replicate (suc n) s h = skip_blanks-replicate n s h

next_word-blanks :
    (w : Bytes) (n : ℕ) (s : Bytes)
    → NoSpace w
    → StartsText s
    → next_word (w ++ b' ' ∷ (replicate n b' ' ++ s)) ≡ (w, s)
unfolding next_word
next_word-blanks [] n s h k = ap (λ r. ([], r)) (skip_blanks-replicate n s k)
next_word-blanks (c ∷ w) n s h k =
    rw h.0 (ap (λ (r : Bytes × Bytes). (c ∷ r.0, r.1)) (next_word-blanks w n s h.1 k))

next_word-end : (w : Bytes) → NoSpace w → next_word w ≡ (w, [])
unfolding next_word
next_word-end [] h = refl
next_word-end (c ∷ w) h = rw h.0 (ap (λ (r : Bytes × Bytes). (c ∷ r.0, r.1)) (next_word-end w h.1))

-- The arguments and the end keep to their formats.
abbrev pub IsLine : List (Bytes × ℕ) → Tail → Type 0
IsLine [] t = IsTail t
IsLine ((w, n) ∷ ws) t = IsMiddle w × IsLine ws t

middle-StartsText : (w s : Bytes) → IsMiddle w → StartsText (w ++ s)
middle-StartsText [] s h = absurd h
middle-StartsText (c ∷ w) s h = h.1.0

line_text-StartsText :
    (ws : List (Bytes × ℕ)) (t : Tail) → IsLine ws t → StartsText (line_text ws t)
line_text-StartsText [] nothing h = tt
line_text-StartsText [] (last_word []) h = tt
line_text-StartsText [] (last_word (c ∷ w)) h = h.1.0
line_text-StartsText [] (trailing t) h = refl
line_text-StartsText ((w, n) ∷ ws) t h =
    middle-StartsText w (b' ' ∷ (replicate n b' ' ++ line_text ws t)) h.0

split_loop-nil : (fuel : ℕ) → 0 < fuel → split_loop fuel [] ≡ some []
unfolding split_loop
split_loop-nil zero h = elim h [ ]
split_loop-nil (suc fuel) h = refl

split_loop-line :
    (fuel : ℕ) (ws : List (Bytes × ℕ)) (t : Tail)
    → IsLine ws t
    → length (line_text ws t) < fuel
    → split_loop fuel (line_text ws t) ≡ some (line_args ws t)
unfolding split_loop
split_loop-line zero ws t h f = elim f [ ]
split_loop-line (suc fuel) [] nothing h f = refl
split_loop-line (suc fuel) [] (last_word []) h f = absurd h
split_loop-line (suc fuel) [] (last_word (c ∷ w)) h f = rw h.0 (
    ap (word_and (split_loop fuel)) (next_word-end (c ∷ w) h.1)
    ∙ ap (argument (c ∷ w)) (split_loop-nil fuel (omega arith)))
split_loop-line (suc fuel) [] (trailing t) h f = refl
split_loop-line (suc fuel) (([], n) ∷ ws) t h f = absurd h.0
split_loop-line (suc fuel) ((c ∷ w, n) ∷ ws) t h f = rw h.0.0 (
    ap (word_and (split_loop fuel))
      (next_word-blanks (c ∷ w) n (line_text ws t) h.0.1 (line_text-StartsText ws t h.1))
    ∙ ap (argument (c ∷ w)) (
        split_loop-line fuel ws t h.1 (
          omega (
            arith,
            length-append w (b' ' ∷ (replicate n b' ' ++ line_text ws t)),
            length-append (replicate n b' ') (line_text ws t),
          ))))

-- A line of arguments, each followed by one or more spaces, is split into those arguments; a last
-- argument in front of which stands a colon is the rest of the line, with its spaces.
pub split_buf-line :
    (ws : List (Bytes × ℕ)) (t : Tail) (colon_special : Bool)
    → IsLine ws t
    → split_buf (line_text ws t) colon_special ≡ some (line_args ws t)
unfolding split_buf
split_buf-line ws t colon_special h =
    split_loop-line (suc (length (line_text ws t))) ws t h (omega arith)

word_and-some :
    (again : Bytes → Option (List Bytes)) (p : Bytes × Bytes) (args : List Bytes)
    → again p.1 ≡ some args
    → word_and again p ≡ some (p.0 ∷ args)
word_and-some again (word, rest) args e = ap (argument word) e

split_loop-total :
    (fuel : ℕ) (buf : Bytes)
    → length buf < fuel
    → (args : List Bytes) × (split_loop fuel buf ≡ some args) × (length args ≤ length buf)
unfolding split_loop
split_loop-total zero buf f = elim f [ ]
split_loop-total (suc fuel) [] f = ([], refl, omega arith)
split_loop-total (suc fuel) (c ∷ s) f = elim (Bool-cases (c == b':')) [
  | inl colon ↦ rw colon (s ∷ [], refl, omega arith)
  | inr word ↦
      let (args, done, fewer) =
        split_loop-total fuel (next_word (c ∷ s)).1 (omega (arith, length-next_word c s)) in
      rw word (
        (next_word (c ∷ s)).0 ∷ args,
        word_and-some (split_loop fuel) (next_word (c ∷ s)) args done,
        omega (arith, fewer, length-next_word c s),
      )
]

-- The loop ends on every line, with no more arguments than the line has bytes.
pub split_buf-total :
    (buf : Bytes) (colon_special : Bool)
    → (args : List Bytes) × (split_buf buf colon_special ≡ some args) × (length args ≤ length buf)
unfolding split_buf
split_buf-total buf colon_special = split_loop-total (suc (length buf)) buf (omega arith)
