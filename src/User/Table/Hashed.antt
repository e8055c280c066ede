-- ===== src/User/Table/Hashed.antt =====
-- users.c: a search in the list of a nick's hash finds what a search through all users finds.
use k9_chatnet.Common.{
  ℕ, ◌+◌, ◌*◌, ◌%◌, ◌≡◌, refl, sym, ap, ap₂, ◌∙◌, inl, inr, true, List, [], ◌∷◌, Bytes, IsText,
  arith, peek, ◌==◌, ==_iff, if◌then◌else◌, Bool-cases, All,
}
use k9_chatnet.Text.Case.{tolower, lower, same_text, same_text_iff}
use k9_chatnet.User.Table.{hash, search_user}

-- The users of a list whose nicks have a hash.
unfoldable pub hashed_to : (ℕ → Bytes) → ℕ → List ℕ → List ℕ
hashed_to nick i [] = []
hashed_to nick i (v ∷ l) = if hash (nick v) == i then v ∷ hashed_to nick i l else hashed_to nick i l

tolower_mod : (c : ℕ) → tolower c % 32 ≡ c % 32
unfolding tolower
tolower_mod c = ground arith

peek-lower : (s : Bytes) → peek (lower s) % 32 ≡ peek s % 32
peek-lower [] = refl
peek-lower (c ∷ s) = tolower_mod c

hash-lower : (s : Bytes) → hash (lower s) ≡ hash s
unfolding hash
hash-lower [] = refl
hash-lower (c ∷ s) = ap₂ (λ a b. a * 32 + b) (tolower_mod c) (peek-lower s)

pub same_text-hash : (s t : Bytes) → IsText s → IsText t → same_text s t ≡ true → hash s ≡ hash t
same_text-hash s t hs ht e =
    sym (hash-lower s) ∙ ap hash ((same_text_iff s t hs ht).0 e) ∙ hash-lower t

pub search_user-hashed_to :
    (nick : ℕ → Bytes) (wanted : Bytes) (l : List ℕ)
    → IsText wanted
    → All (λ v. IsText (nick v)) l
    → search_user nick wanted (hashed_to nick (hash wanted) l) ≡ search_user nick wanted l
unfolding search_user hashed_to
search_user-hashed_to nick wanted [] t h = refl
search_user-hashed_to nick wanted (v ∷ l) t (tv, h) =
    elim (Bool-cases (hash (nick v) == hash wanted)) [
      | inl hit ↦ elim (Bool-cases (same_text (nick v) wanted)) [
        | inl same ↦ rw (hit, same) refl
        | inr other ↦ rw (hit, other) (search_user-hashed_to nick wanted l t h)
      ]
      | inr miss ↦ elim (Bool-cases (same_text (nick v) wanted)) [
        | inl same ↦
            let hit : (hash (nick v) == hash wanted) ≡ true =
              (==_iff (hash (nick v)) (hash wanted)).1 (same_text-hash (nick v) wanted tv t same) in
            absurd cc
        | inr other ↦ rw (miss, other) (search_user-hashed_to nick wanted l t h)
      ]
    ]
