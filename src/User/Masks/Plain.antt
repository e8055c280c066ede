-- ===== src/User/Masks/Plain.antt =====
-- Bytes that have no meaning in a mask, and what patterns without `?` match.
use k9_chatnet.Common.{
  ℕ, ◌≡◌, ◌≢◌, ◌<◌, refl, true, false, [], ◌∷◌, ◌++◌, Bytes, All, All-append, IsText, arith,
}
use k9_chatnet.Text.Wild.Glob.{Matches, empty, any, byte, leave, take, NoStarQuery}
use k9_chatnet.Text.Wild.{match_wild_nocase}
use k9_chatnet.Text.Wild.Laws.{do_match_wild_iff}
use k9_chatnet.User.{Lacks}

-- A byte of a mask, `*` included.
abbrev pub IsMaskByte : ℕ → Type 0
IsMaskByte c = (0 < c) × (c ≢ b'?') × (c ≢ b'!') × (c ≢ b'@')

-- A byte of an address.
abbrev pub IsPlain : ℕ → Type 0
IsPlain c = (c ≢ b'*') × IsMaskByte c

pub mask_bytes : (s : Bytes) → All IsPlain s → All IsMaskByte s
mask_bytes [] h = tt
mask_bytes (c ∷ s) (h, hs) = (h.1, mask_bytes s hs)

pub append_bytes : (s t : Bytes) → All IsMaskByte s → All IsMaskByte t → All IsMaskByte (s ++ t)
append_bytes s t h k = (All-append IsMaskByte s t).1 (h, k)

-- A byte of a pattern that has no `?`.
abbrev pub IsAtom : ℕ → Type 0
IsAtom c = (0 < c) × (c ≢ b'?')

pub atoms : (s : Bytes) → All IsMaskByte s → All IsAtom s
atoms [] h = tt
atoms (c ∷ s) ((pos, query, bang, at), hs) = ((pos, query), atoms s hs)

atoms-IsText : (s : Bytes) → All IsAtom s → IsText s
atoms-IsText [] h = tt
atoms-IsText (c ∷ s) (h, hs) = (h.0, atoms-IsText s hs)

atoms-NoStarQuery : (s : Bytes) → All IsAtom s → NoStarQuery s
atoms-NoStarQuery [] h = tt
atoms-NoStarQuery (c ∷ []) h = tt
atoms-NoStarQuery (c ∷ d ∷ s) (h, hs) = (λ e. hs.0.1, atoms-NoStarQuery (d ∷ s) hs)

-- A pattern without `?` that matches is accepted.
pub atoms-accept : (p s : Bytes) → All IsAtom p → Matches false p s → match_wild_nocase p s ≡ true
unfolding match_wild_nocase
atoms-accept p s h m = (do_match_wild_iff false p s (atoms-IsText p h) (atoms-NoStarQuery p h)).1 m

pub Matches_same : (s : Bytes) → All IsPlain s → Matches false s s
Matches_same [] h = empty
Matches_same (c ∷ s) ((star, (pos, query, bang, at)), hs) = byte query star refl (Matches_same s hs)

pub Matches_star : (s t p : Bytes) → Matches false p t → Matches false (b'*' ∷ p) (s ++ t)
Matches_star [] t p m = leave refl m
Matches_star (c ∷ s) t p m = take refl (Matches_star s t p m)

pub Matches-append :
    {p q s t : Bytes} → Matches false p s → Matches false q t → Matches false (p ++ q) (s ++ t)
Matches-append empty n = n
Matches-append (any e m) n = any e (Matches-append m n)
Matches-append (byte e f g m) n = byte e f g (Matches-append m n)
Matches-append (leave e m) n = leave e (Matches-append m n)
Matches-append (take e m) n = take e (Matches-append m n)

pub Lacks-at : (s : Bytes) → All IsMaskByte s → Lacks b'@' s
Lacks-at [] h = tt
Lacks-at (c ∷ s) ((pos, query, bang, at), hs) = (ground arith, Lacks-at s hs)
