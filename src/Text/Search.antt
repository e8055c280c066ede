-- ===== src/Text/Search.antt =====
-- misc.c `stristr`. A pointer into the string is the rest of the string from there on.
use k9_chatnet.Common.{
  ℕ, ◌≡◌, ◌≢◌, refl, sym, ap, ap₂, ◌∙◌, inl, inr, true, false, [], ◌∷◌, ◌++◌, map, Bytes, Option,
  none, some, arith, ◌==◌, ==_iff, ==-refl, if◌then◌else◌, append_assoc, Bool-cases, peek,
}
use k9_chatnet.Text.Case.{tolower}

-- `d++` on a byte that matched, and the end of the loop where it was the last one.
abbrev pub matched : Bytes → (Bytes → Option Bytes) → Bytes → Option Bytes
matched start again [] = none
matched start again (d ∷ []) = some start
matched start again (d ∷ e ∷ ds) = again (e ∷ ds)

-- The loop: `start` is the variable `s`, `d` what is left of the pattern `s2`, and the last argument is
-- `s1`.
unfoldable pub stristr_loop : Bytes → Bytes → Bytes → Bytes → Option Bytes
stristr_loop s2 start d [] = none
stristr_loop s2 start d (c ∷ s1) =
    let restart = stristr_loop s2 s1 s2 s1 in
    if tolower c == tolower (peek d)
    then matched start (λ e. stristr_loop s2 start e s1) d
    else restart

unfoldable pub stristr : Bytes → Bytes → Option Bytes
stristr s1 s2 = stristr_loop s2 s1 s2 s1

-- The rest of `s` at which a text begins that is the pattern but for the case of the letters.
abbrev pub BeginsWith : Bytes → Bytes → Bytes → Type 0
BeginsWith p s t =
    (before : Bytes) × (found : Bytes) × (after : Bytes) × (s ≡ before ++ t)
    × (t ≡ found ++ after)
    × (map tolower found ≡ map tolower p)

map-append : (s t : Bytes) → map tolower (s ++ t) ≡ map tolower s ++ map tolower t
map-append [] t = refl
map-append (c ∷ s) t = ap (◌∷◌ (tolower c)) (map-append s t)

map-snoc :
    (s t : Bytes) (c d : ℕ)
    → map tolower s ≡ map tolower t
    → tolower c ≡ tolower d
    → map tolower (s ++ c ∷ []) ≡ map tolower (t ++ d ∷ [])
map-snoc s t c d h k =
    map-append s (c ∷ []) ∙ ap₂ ◌++◌ h (ap (λ x. x ∷ []) k) ∙ sym (map-append t (d ∷ []))

-- What holds while the loop runs: the bytes between the start and here match those of the pattern
-- before `d`.
stristr_loop-BeginsWith :
    (s s2 : Bytes) (s1 start d before found pattern : Bytes) (t : Bytes)
    → s ≡ before ++ start
    → start ≡ found ++ s1
    → s2 ≡ pattern ++ d
    → map tolower found ≡ map tolower pattern
    → stristr_loop s2 start d s1 ≡ some t
    → BeginsWith s2 s t
unfolding stristr_loop
stristr_loop-BeginsWith s s2 [] start d before found pattern t hs hst hp hm e = cc
stristr_loop-BeginsWith s s2 (c ∷ s1) start d before found pattern t hs hst hp hm e =
    elim (Bool-cases (tolower c == tolower (peek d))) [
      | inr differs ↦
          stristr_loop-BeginsWith s s2 s1 s1 s2 (before ++ (found ++ c ∷ [])) [] [] t
            (hs
              ∙ ap (λ x. before ++ x) (hst ∙ sym (append_assoc found (c ∷ []) s1))
              ∙ sym (append_assoc before (found ++ c ∷ []) s1))
            refl refl refl (sym (rw (differs, stristr_loop) refl) ∙ e)
      | inl equal ↦
          go d hp ((==_iff (tolower c) (tolower (peek d))).0 equal)
            (sym (rw (equal, stristr_loop) refl) ∙ e)
            (λ d' x y.
              stristr_loop-BeginsWith s s2 s1 start d' before (found ++ c ∷ [])
                (pattern ++ peek d ∷ []) t hs (hst ∙ sym (append_assoc found (c ∷ []) s1)) x y)
    ]
  where
    go :
        (x : Bytes)
        → s2 ≡ pattern ++ x
        → tolower c ≡ tolower (peek x)
        → matched start (λ y. stristr_loop s2 start y s1) x ≡ some t
        → ((x' : Bytes)
            → s2 ≡ (pattern ++ peek x ∷ []) ++ x'
            → map tolower (found ++ c ∷ []) ≡ map tolower (pattern ++ peek x ∷ [])
            → stristr_loop s2 start x' s1 ≡ some t
            → BeginsWith s2 s t)
        → BeginsWith s2 s t
    go [] hx eq m ih = cc
    go (y ∷ []) hx eq m ih =
        let here : start ≡ t = cc in
        (
          before,
          found ++ c ∷ [],
          s1,
          hs ∙ ap (λ r. before ++ r) here,
          sym here ∙ hst ∙ sym (append_assoc found (c ∷ []) s1),
          map-snoc found pattern c y hm eq ∙ ap (map tolower) (sym hx),
        )
    go (y ∷ z ∷ ds) hx eq m ih =
        ih (z ∷ ds) (hx ∙ sym (append_assoc pattern (y ∷ []) (z ∷ ds)))
          (map-snoc found pattern c y hm eq) m

-- A result is a place of the string at which the pattern begins, but for the case of the letters.
pub stristr-BeginsWith : (s1 s2 t : Bytes) → stristr s1 s2 ≡ some t → BeginsWith s2 s1 t
unfolding stristr
stristr-BeginsWith s1 s2 t e =
    stristr_loop-BeginsWith s1 s2 s1 s1 s2 [] [] [] t refl refl refl refl e

-- After a mismatch the search goes on behind the byte that did not match: a pattern of two letters is
-- not found behind another copy of its first letter.
pub stristr_doubled :
    (c d : ℕ) → tolower c ≢ tolower d → stristr (c ∷ c ∷ d ∷ []) (c ∷ d ∷ []) ≡ none
unfolding stristr stristr_loop
stristr_doubled c d h =
    let same : (tolower c == tolower c) ≡ true = ==-refl (tolower c) in
    let differs : (tolower c == tolower d) ≡ false = ground (arith, h) in
    let differs' : (tolower d == tolower c) ≡ false = ground (arith, h) in
    rw (same, differs, differs') refl
