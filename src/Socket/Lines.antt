-- ===== src/Socket/Lines.antt =====
-- sockutil.c `sgets` and `sgets2`, on the bytes that `sgetc` returns until the connection ends. That the
-- wait for the first byte may end without one is left out.
use k9_chatnet.Common.{
  ℕ, zero, suc, ◌+◌, ◌<◌, ◌≡◌, refl, sym, ap, ◌∙◌, false, [], ◌∷◌, ◌++◌, Bytes, Option, none, some,
  arith, length, length-append, append_assoc, All-append, ◌==◌, ==-refl, if◌then◌else◌, All,
}

abbrev pub stored_byte : ℕ → Option (Bytes × Bytes) → Option (Bytes × Bytes)
stored_byte c none = none
stored_byte c (some (line, rest)) = some (c ∷ line, rest)

-- The loop with `len` places, of which the last is for the NUL, and the byte `c` that was read.
unfoldable pub sgets_loop : ℕ → ℕ → Bytes → Option (Bytes × Bytes)
sgets_loop zero c s = some ([], s)
sgets_loop (suc zero) c s = some ([], s)
sgets_loop (suc (suc len)) c [] = if c == b'\n' then some (c ∷ [], []) else none
sgets_loop (suc (suc len)) c (d ∷ s) =
    let later = sgets_loop (suc len) d s in
    if c == b'\n' then some (c ∷ [], d ∷ s) else stored_byte c later

-- The line, and what is left to be read.
unfoldable pub sgets : ℕ → Bytes → Option (Bytes × Bytes)
sgets zero s = none
sgets (suc len) [] = none
sgets (suc len) (c ∷ s) = sgets_loop (suc len) c s

-- A string without its last byte, if it is `d`.
unfoldable pub without_last : ℕ → Bytes → Bytes
without_last d [] = []
without_last d (c ∷ []) = if c == d then [] else c ∷ []
without_last d (c ∷ e ∷ s) = c ∷ without_last d (e ∷ s)

-- The string in a buffer: the bytes before the first NUL.
unfoldable pub before_nul : Bytes → Bytes
before_nul [] = []
before_nul (c ∷ s) = let later = before_nul s in if c == 0 then [] else c ∷ later

-- Both bytes are looked for at the end of the string, which a NUL in the line ends. For an empty string the byte in front of
-- the buffer is looked at, and left out here.
abbrev pub stripped : Option (Bytes × Bytes) → Option (Bytes × Bytes)
stripped none = none
stripped (some (line, rest)) = some (without_last 13 (without_last b'\n' (before_nul line)), rest)

unfoldable pub sgets2 : ℕ → Bytes → Option (Bytes × Bytes)
sgets2 len s = stripped (sgets len s)

-- A line without a newline in it.
abbrev pub IsLine : Bytes → Type 0
IsLine line = All (λ c. (c == b'\n') ≡ false) line

sgets-line :
    (len : ℕ) (line rest : Bytes)
    → IsLine line
    → length line + 1 < len
    → sgets len (line ++ b'\n' ∷ rest) ≡ some (line ++ b'\n' ∷ [], rest)
unfolding sgets sgets_loop
sgets-line zero line rest h l = absurd (omega (arith, l))
sgets-line (suc zero) line rest h l = absurd (omega (arith, l))
sgets-line (suc (suc len)) [] [] h l = refl
sgets-line (suc (suc len)) [] (d ∷ rest) h l = refl
sgets-line (suc (suc len)) (c ∷ []) rest (p, h) l =
    rw p (ap (stored_byte c) (sgets-line (suc len) [] rest tt (omega (arith, l))))
sgets-line (suc (suc len)) (c ∷ e ∷ line) rest (p, h) l =
    rw p (ap (stored_byte c) (sgets-line (suc len) (e ∷ line) rest h (omega (arith, l))))

without_last-snoc : (d : ℕ) (s : Bytes) → without_last d (s ++ d ∷ []) ≡ s
unfolding without_last
without_last-snoc d [] = rw (==-refl d) refl
without_last-snoc d (c ∷ []) = rw (==-refl d) refl
without_last-snoc d (c ∷ e ∷ s) = ap (◌∷◌ c) (without_last-snoc d (e ∷ s))

-- A line without a NUL in it.
abbrev pub HasNoNul : Bytes → Type 0
HasNoNul line = All (λ c. (c == 0) ≡ false) line

before_nul-HasNoNul : (s : Bytes) → HasNoNul s → before_nul s ≡ s
unfolding before_nul
before_nul-HasNoNul [] h = refl
before_nul-HasNoNul (c ∷ s) (h, hs) = rw h (ap (◌∷◌ c) (before_nul-HasNoNul s hs))

-- A line without a NUL that ends with a carriage return and a newline, and that fits, is returned without both, and the
-- bytes behind it are left for the next call.
pub sgets2-line :
    (len : ℕ) (line rest : Bytes)
    → IsLine line
    → HasNoNul line
    → length line + 2 < len
    → sgets2 len (line ++ 13 ∷ b'\n' ∷ rest) ≡ some (line, rest)
unfolding sgets2
sgets2-line len line rest h z l =
    ap (λ s. stripped (sgets len s)) (sym (append_assoc line (13 ∷ []) (b'\n' ∷ rest)))
    ∙ ap stripped (
        sgets-line len (line ++ 13 ∷ []) rest
          ((All-append (λ c. (c == b'\n') ≡ false) line (13 ∷ [])).1 (h, (refl, tt)))
          (omega (arith, l, length-append line (13 ∷ []))))
    ∙ ap (λ s. some (without_last 13 (without_last b'\n' s), rest))
        (before_nul-HasNoNul ((line ++ 13 ∷ []) ++ b'\n' ∷ []) (
          (All-append (λ c. (c == 0) ≡ false) (line ++ 13 ∷ []) (b'\n' ∷ [])).1
            ((All-append (λ c. (c == 0) ≡ false) line (13 ∷ [])).1 (z, (refl, tt)), (refl, tt))))
    ∙ ap (λ s. some (without_last 13 s, rest)) (without_last-snoc b'\n' (line ++ 13 ∷ []))
    ∙ ap (λ s. some (s, rest)) (without_last-snoc 13 line)

sgets-short :
    (line : Bytes) (c : ℕ) (rest : Bytes)
    → IsLine line
    → sgets (suc (length line)) (line ++ c ∷ rest) ≡ some (line, rest)
unfolding sgets sgets_loop
sgets-short [] c rest h = refl
sgets-short (x ∷ []) c rest (p, h) = rw p (ap (stored_byte x) (sgets-short [] c rest tt))
sgets-short (x ∷ y ∷ line) c rest (p, h) =
    rw p (ap (stored_byte x) (sgets-short (y ∷ line) c rest h))

-- When a line is longer than the buffer, the byte that no longer fits is lost.
pub sgets-lost :
    (line : Bytes) (c : ℕ) (rest : Bytes)
    → IsLine line
    → sgets (length line + 1) (line ++ c ∷ rest) ≡ some (line, rest)
sgets-lost line c rest h =
    ap (λ n. sgets n (line ++ c ∷ rest)) (omega arith) ∙ sgets-short line c rest h
