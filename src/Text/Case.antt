-- ===== src/Text/Case.antt =====
-- misc.c `tolower` and `toupper`, compat.c `stricmp` and `strnicmp`. The character classes are those
-- of the C locale, bytes are read as `unsigned char`.
use k9_chatnet.Common.{
  ℕ, zero, suc, ◌+◌, ◌-◌, ◌<◌, ◌≡◌, refl, ap, ◌↔◌, Bool, true, false, ◌&&◌, [], ◌∷◌, map, arith,
  Bytes, IsText, ltb, leb, ◌==◌, if◌then◌else◌, length,
}
use k9_chatnet.Common.Int.{ℤ, pos, negsuc, neg}

abbrev is_upper : ℕ → Bool
is_upper c = leb b'A' c && leb c b'Z'

abbrev is_lower : ℕ → Bool
is_lower c = leb b'a' c && leb c b'z'

unfoldable pub tolower : ℕ → ℕ
tolower c = if is_upper c then c + 32 else c

unfoldable pub toupper : ℕ → ℕ
toupper c = if is_lower c then c - 32 else c

-- The value after the loop has met a difference: `c` and the byte `d` of the other string.
abbrev order : ℕ → ℕ → ℤ
order c d = if ltb c d then negsuc 0 else pos 1

unfoldable pub stricmp : Bytes → Bytes → ℤ
stricmp [] [] = pos 0
stricmp [] (d ∷ t) = if 0 == tolower d then pos 0 else order 0 (tolower d)
stricmp (c ∷ s) [] = if tolower c == 0 then pos 0 else order (tolower c) 0
stricmp (c ∷ s) (d ∷ t) =
    if tolower c == tolower d
    then if tolower c == 0 then pos 0 else stricmp s t
    else order (tolower c) (tolower d)

unfoldable pub strnicmp : Bytes → Bytes → ℕ → ℤ
strnicmp s t zero = pos 0
strnicmp [] [] (suc n) = pos 0
strnicmp [] (d ∷ t) (suc n) = if 0 == tolower d then pos 0 else order 0 (tolower d)
strnicmp (c ∷ s) [] (suc n) = if tolower c == 0 then pos 0 else order (tolower c) 0
strnicmp (c ∷ s) (d ∷ t) (suc n) =
    if tolower c == tolower d
    then if tolower c == 0 then pos 0 else if n == 0 then pos 0 else strnicmp s t n
    else order (tolower c) (tolower d)

abbrev pub is_zero : ℤ → Bool
is_zero (pos zero) = true
is_zero _ = false

-- The test `stricmp(s, t) == 0`.
abbrev pub same_text : Bytes → Bytes → Bool
same_text s t = is_zero (stricmp s t)

abbrev pub lower : Bytes → Bytes
lower = map tolower

pub tolower_pos : (c : ℕ) → 0 < c → 0 < tolower c
unfolding tolower
tolower_pos c h = ground arith

pub tolower_idem : (c : ℕ) → tolower (tolower c) ≡ tolower c
unfolding tolower
tolower_idem c = ground arith

-- Lowering the case after raising it is lowering the case.
pub tolower-toupper : (c : ℕ) → tolower (toupper c) ≡ tolower c
unfolding tolower toupper
tolower-toupper c = ground arith

stricmp_sound : (s t : Bytes) → IsText s → IsText t → stricmp s t ≡ pos 0 → lower s ≡ lower t
unfolding stricmp
stricmp_sound [] [] hs ht e = refl
stricmp_sound [] (d ∷ t) hs ht e = ground (arith, tolower_pos d)
stricmp_sound (c ∷ s) [] hs ht e = ground (arith, tolower_pos c)
stricmp_sound (c ∷ s) (d ∷ t) hs ht e = ground (arith, tolower_pos c, stricmp_sound s t hs.1 ht.1)

stricmp_complete : (s t : Bytes) → lower s ≡ lower t → stricmp s t ≡ pos 0
unfolding stricmp
stricmp_complete [] [] e = refl
stricmp_complete [] (d ∷ t) e = cc
stricmp_complete (c ∷ s) [] e = cc
stricmp_complete (c ∷ s) (d ∷ t) e = ground (arith, stricmp_complete s t)

-- Two strings compare equal exactly when they are the same but for the case of their letters.
pub stricmp-eq_zero_iff :
    (s t : Bytes) → IsText s → IsText t → (stricmp s t ≡ pos 0) ↔ (lower s ≡ lower t)
stricmp-eq_zero_iff s t hs ht = (stricmp_sound s t hs ht, stricmp_complete s t)

-- Exchanging the strings negates the result.
pub stricmp_swap : (s t : Bytes) → stricmp t s ≡ neg (stricmp s t)
unfolding stricmp
stricmp_swap [] [] = refl
stricmp_swap [] (d ∷ t) = ground arith
stricmp_swap (c ∷ s) [] = ground arith
stricmp_swap (c ∷ s) (d ∷ t) = ground (arith, stricmp_swap s t)

is_zero→eq : (a : ℤ) → is_zero a ≡ true → a ≡ pos 0
is_zero→eq a h = ground arith

-- The test on the result of `stricmp`, as an equation of the lowered strings.
pub same_text_iff :
    (s t : Bytes) → IsText s → IsText t → (same_text s t ≡ true) ↔ (lower s ≡ lower t)
same_text_iff s t hs ht =
    (λ e. stricmp_sound s t hs ht (is_zero→eq _ e), λ e. ap is_zero (stricmp_complete s t e))

pub same_text_refl : (s : Bytes) → same_text s s ≡ true
same_text_refl s = ap is_zero (stricmp_complete s s refl)

-- With a length that covers both strings `strnicmp` is `stricmp`.
pub strnicmp-eq-stricmp : (s t : Bytes) (n : ℕ) → length s < n → strnicmp s t n ≡ stricmp s t
unfolding stricmp strnicmp
strnicmp-eq-stricmp s t zero h = elim h [ ]
strnicmp-eq-stricmp [] [] (suc n) h = refl
strnicmp-eq-stricmp [] (d ∷ t) (suc n) h = refl
strnicmp-eq-stricmp (c ∷ s) [] (suc n) h = refl
strnicmp-eq-stricmp (c ∷ s) (d ∷ t) (suc n) h = ground (arith, strnicmp-eq-stricmp s t n)
