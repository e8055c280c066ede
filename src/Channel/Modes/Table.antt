-- ===== src/Channel/Modes/Table.antt =====
-- channels.c `cbmodes`: the letters and the flags of the table.
use k9_chatnet.Common.{
  ℕ, ◌≡◌, ◌≢◌, refl, sym, ap, subst, ◌∙◌, inl, inr, true, false, List, [], ◌∷◌, Option, none, some,
  ◌==◌, ==_iff, leb, if◌then◌else◌, Bool-cases, All,
}
use k9_chatnet.Channel.Modes.{CbMode, cbmodes, cbmode_in, cumode}

-- What the table's letters are.
abbrev pub IsPlain : CbMode → Type 0
IsPlain m =
    ((m.letter == b'+') ≡ false)
    × ((m.letter == b'-') ≡ false)
    × (leb 128 m.letter ≡ false)
    × (cumode m.letter ≡ none)

-- The entry with a flag.
pub letter_in : ℕ → List CbMode → Option ℕ
letter_in f [] = none
letter_in f (m ∷ ms) = if m.flag == f then some m.letter else letter_in f ms

abbrev pub IsFound : CbMode → Type 0
IsFound m = IsPlain m × (letter_in m.flag cbmodes ≡ some m.letter)

pub cbmode_in-All :
    (P : CbMode → Type 0) (c : ℕ) (m : CbMode) (ms : List CbMode)
    → All P ms
    → cbmode_in c ms ≡ some m
    → P m × (m.letter ≡ c)
unfolding cbmode_in
cbmode_in-All P c m [] h e = cc
cbmode_in-All P c m (n ∷ ms) h e = elim (Bool-cases (n.letter == c)) [
  | inl hit ↦
      let same : n ≡ m = let q : some n ≡ some m = sym (rw (hit, cbmode_in) refl) ∙ e in cc in
      (subst P same h.0, ap (λ k. k.letter) (sym same) ∙ (==_iff n.letter c).0 hit)
  | inr miss ↦ cbmode_in-All P c m ms h.1 (sym (rw (miss, cbmode_in) refl) ∙ e)
]

pub cbmodes-IsFound : All IsFound cbmodes
unfolding cbmodes letter_in cumode
cbmodes-IsFound = (
  ((refl, refl, refl, refl), refl),
  (
    ((refl, refl, refl, refl), refl),
    (
      ((refl, refl, refl, refl), refl),
      (
        ((refl, refl, refl, refl), refl),
        (
          ((refl, refl, refl, refl), refl),
          (
            ((refl, refl, refl, refl), refl),
            (
              ((refl, refl, refl, refl), refl),
              (
                ((refl, refl, refl, refl), refl),
                (
                  ((refl, refl, refl, refl), refl),
                  (
                    ((refl, refl, refl, refl), refl),
                    (
                      ((refl, refl, refl, refl), refl),
                      (((refl, refl, refl, refl), refl), (((refl, refl, refl, refl), refl), tt)),
                    ),
                  ),
                ),
              ),
            ),
          ),
        ),
      ),
    ),
  ),
)

-- No two entries have the same flag.
pub differ_letters :
    (c d : ℕ) (m n : CbMode)
    → cbmode_in c cbmodes ≡ some m
    → cbmode_in d cbmodes ≡ some n
    → m.flag ≡ n.flag
    → (d == c) ≢ false
differ_letters c d m n e f same miss =
    let (here, c_letter) = cbmode_in-All IsFound c m cbmodes cbmodes-IsFound e in
    let (there, d_letter) = cbmode_in-All IsFound d n cbmodes cbmodes-IsFound f in
    let both : some n.letter ≡ some m.letter =
      sym there.1 ∙ ap (λ l. letter_in l cbmodes) (sym same) ∙ here.1 in
    let letters : n.letter ≡ m.letter = cc in
    let hit : (d == c) ≡ true = (==_iff d c).1 (sym d_letter ∙ letters ∙ c_letter) in cc
