-- ===== src/Text/Wild/Glob.antt =====
-- What `*` and `?` mean, with no search order in it.
use k9_chatnet.Common.{ℕ, ◌≡◌, ◌≢◌, Bool, true, false, [], ◌∷◌, Bytes}
use k9_chatnet.Text.Case.{tolower}

-- Two bytes that are taken for the same.
abbrev pub Same : Bool → ℕ → ℕ → Type 0
Same true a b = a ≡ b
Same false a b = tolower a ≡ tolower b

pub data Matches (docase : Bool) : Bytes → Bytes → Type 0 where
  empty : Matches docase [] []
  any : {q c : ℕ} {p s : Bytes} → q ≡ b'?' → Matches docase p s → Matches docase (q ∷ p) (c ∷ s)
  byte :
      {q c : ℕ} {p s : Bytes}
      → q ≢ b'?'
      → q ≢ b'*'
      → Same docase c q
      → Matches docase p s
      → Matches docase (q ∷ p) (c ∷ s)
  leave : {q : ℕ} {p s : Bytes} → q ≡ b'*' → Matches docase p s → Matches docase (q ∷ p) s
  take :
      {q c : ℕ} {p s : Bytes} → q ≡ b'*' → Matches docase (q ∷ p) s → Matches docase (q ∷ p) (c ∷ s)

-- No `*` of the pattern has a `?` directly behind it.
abbrev pub NoStarQuery : Bytes → Type 0
NoStarQuery [] = Unit
NoStarQuery (q ∷ []) = Unit
NoStarQuery (q ∷ r ∷ p) = (q ≡ b'*' → r ≢ b'?') × NoStarQuery (r ∷ p)

-- The byte does not stand in the string.
abbrev pub Without : ℕ → Bytes → Type 0
Without q [] = Unit
Without q (c ∷ s) = (c ≢ q) × Without q s
