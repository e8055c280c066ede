-- ===== src/Text/Wild/Fold.antt =====
-- `match_wild_nocase` does not see the case of the string's letters.
use k9_chatnet.Common.{ℕ, ◌≡◌, refl, sym, ◌∙◌, ap, Bool, false, [], ◌∷◌, Bytes}
use k9_chatnet.Text.Case.{tolower, tolower_idem, lower}
use k9_chatnet.Text.Wild.{
  same_byte, scan, skip_one, take_byte, after_star, do_match_wild, match_wild_nocase,
}

-- The function gives the same answer on the lowered string.
abbrev Folds : (Bytes → Bool) → Type 0
Folds f = (s : Bytes) → f (lower s) ≡ f s

same_byte-tolower : (c q : ℕ) → same_byte false (tolower c) q ≡ same_byte false c q
unfolding same_byte
same_byte-tolower c q = rw tolower_idem

scan-Folds : (q : ℕ) (next : Bytes → Bool) → Folds next → Folds (scan false q next)
unfolding scan
scan-Folds q next h [] = refl
scan-Folds q next h (c ∷ s) = rw (same_byte-tolower c q, scan-Folds q next h s, h (c ∷ s))

after_star-Folds : (p : Bytes) (next : Bytes → Bool) → Folds next → Folds (after_star false p next)
unfolding after_star
after_star-Folds [] next h s = refl
after_star-Folds (q ∷ p) next h s = rw (scan-Folds q next h s, h s)

take_byte-Folds : (q : ℕ) (next : Bytes → Bool) → Folds next → Folds (take_byte false q next)
unfolding take_byte
take_byte-Folds q next h [] = refl
take_byte-Folds q next h (c ∷ s) = rw (same_byte-tolower c q, h s)

skip_one-Folds : (next : Bytes → Bool) → Folds next → Folds (skip_one next)
unfolding skip_one
skip_one-Folds next h [] = refl
skip_one-Folds next h (c ∷ s) = h s

do_match_wild-Folds : (p : Bytes) → Folds (do_match_wild false p)
unfolding do_match_wild
do_match_wild-Folds [] [] = refl
do_match_wild-Folds [] (c ∷ s) = refl
do_match_wild-Folds (q ∷ p) s = rw (
  skip_one-Folds _ (do_match_wild-Folds p) s,
  after_star-Folds p _ (do_match_wild-Folds p) s,
  take_byte-Folds q _ (do_match_wild-Folds p) s,
)

-- Two strings that differ only in the case of their letters match the same masks.
pub match_wild_nocase-lower :
    (p s t : Bytes) → lower s ≡ lower t → match_wild_nocase p s ≡ match_wild_nocase p t
unfolding match_wild_nocase
match_wild_nocase-lower p s t e =
    sym (do_match_wild-Folds p s) ∙ ap (do_match_wild false p) e ∙ do_match_wild-Folds p t
