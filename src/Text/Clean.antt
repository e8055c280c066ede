-- ===== src/Text/Clean.antt =====
-- misc.c `doCleanBuffer`.
use k9_chatnet.Common.{
  ℕ, ◌≡◌, refl, sym, ap, ◌∙◌, inl, inr, Bool, true, false, List, [], ◌∷◌, ◌++◌, Bytes, ◌==◌,
  if◌then◌else◌, append_assoc, append-nil, Bool-cases,
}

-- What the loop writes for the bytes behind one that it has written; with `gap`, a space has been read
-- since.
unfoldable pub clean_on : Bool → Bytes → Bytes
clean_on gap [] = []
clean_on false (c ∷ s) = if c == b' ' then clean_on true s else c ∷ clean_on false s
clean_on true (c ∷ s) = if c == b' ' then clean_on true s else b' ' ∷ c ∷ clean_on false s

unfoldable pub do_clean_buffer : Bytes → Bytes
do_clean_buffer [] = []
do_clean_buffer (c ∷ s) = if c == b' ' then do_clean_buffer s else c ∷ clean_on false s

-- The words between the spaces, of which the first begins with `word`.
unfoldable pub words : Bytes → Bytes → List Bytes
words [] [] = []
words (a ∷ word) [] = (a ∷ word) ∷ []
words [] (c ∷ s) = if c == b' ' then words [] s else words (c ∷ []) s
words (a ∷ word) (c ∷ s) =
    if c == b' ' then (a ∷ word) ∷ words [] s else words (a ∷ word ++ c ∷ []) s

unfoldable pub joined : List Bytes → Bytes
joined [] = []
joined (w ∷ []) = w
joined (w ∷ v ∷ ws) = w ++ b' ' ∷ joined (v ∷ ws)

joined-words :
    (x : Bytes) (a : ℕ) (word s : Bytes)
    → joined (x ∷ words (a ∷ word) s) ≡ x ++ b' ' ∷ joined (words (a ∷ word) s)
unfolding words joined
joined-words x a word [] = refl
joined-words x a word (c ∷ s) = elim (Bool-cases (c == b' ')) [
  | inl space ↦ rw space refl
  | inr other ↦ rw other (joined-words x a (word ++ c ∷ []) s)
]

-- Behind a word that has begun, and behind one that has ended.
clean_on-words :
    (s : Bytes)
    → ((a : ℕ) (word : Bytes) → (a ∷ word) ++ clean_on false s ≡ joined (words (a ∷ word) s))
      × ((x : Bytes) → x ++ clean_on true s ≡ joined (x ∷ words [] s))
unfolding clean_on words joined
clean_on-words [] = (λ a word. append-nil (a ∷ word), λ x. append-nil x)
clean_on-words (c ∷ s) =
    let (begun, ended) = clean_on-words s in
    elim (Bool-cases (c == b' ')) [
      | inl space ↦ (λ a word. rw space (ended (a ∷ word)), λ x. rw space (ended x))
      | inr other ↦ (
        λ a word.
            rw other (
              sym (append_assoc (a ∷ word) (c ∷ []) (clean_on false s)) ∙ begun a (word ++ c ∷ [])),
        λ x. rw other (ap (λ t. x ++ b' ' ∷ t) (begun c []) ∙ sym (joined-words x c [] s)),
      )
    ]

-- The buffer becomes its words with one space between each two, and none in front or behind.
pub do_clean_buffer-words : (s : Bytes) → do_clean_buffer s ≡ joined (words [] s)
unfolding do_clean_buffer words joined
do_clean_buffer-words [] = refl
do_clean_buffer-words (c ∷ s) = elim (Bool-cases (c == b' ')) [
  | inl space ↦ rw space (do_clean_buffer-words s)
  | inr other ↦ rw other ((clean_on-words s).0 c [])
]
