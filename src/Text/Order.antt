-- ===== src/Text/Order.antt =====
-- compat.c `stricmp` is an order: it compares the bytes up to the first NUL, in lower case.
pub mod Named
use k9_chatnet.Common.{
  arith, ℕ, ◌≡◌, refl, sym, ap, ap₂, ◌∙◌, inl, inr, Bool, true, false, List, [], ◌∷◌, Bytes, ltb,
  ◌==◌, ==_iff, ==-refl, if◌then◌else◌, Bool-cases,
}
use k9_chatnet.Common.Int.{ℤ, pos, negsuc}
use k9_chatnet.Text.Case.{tolower, stricmp, same_text}

abbrev pub is_negative : ℤ → Bool
is_negative (pos n) = false
is_negative (negsuc n) = true

-- The test `stricmp(s, t) < 0`.
abbrev pub is_before : Bytes → Bytes → Bool
is_before s t = is_negative (stricmp s t)

-- What is compared of a string.
pub key : Bytes → Bytes
key [] = []
key (c ∷ s) = if tolower c == 0 then [] else tolower c ∷ key s

-- The lexicographic order of the keys.
pub lex : Bytes → Bytes → Bool
lex [] [] = false
lex [] (d ∷ t) = true
lex (c ∷ s) [] = false
lex (c ∷ s) (d ∷ t) = if c == d then lex s t else ltb c d

pub is_before-lex : (s t : Bytes) → is_before s t ≡ lex (key s) (key t)
unfolding stricmp key lex
is_before-lex [] [] = refl
is_before-lex [] (d ∷ t) = ground arith
is_before-lex (c ∷ s) [] = ground arith
is_before-lex (c ∷ s) (d ∷ t) = ground (arith, is_before-lex s t)

same_text-key : (s t : Bytes) → same_text s t ≡ true → key s ≡ key t
unfolding stricmp key
same_text-key [] [] h = refl
same_text-key [] (d ∷ t) h = ground arith
same_text-key (c ∷ s) [] h = ground arith
same_text-key (c ∷ s) (d ∷ t) h = ground (arith, same_text-key s t)

key-same_text : (s t : Bytes) → key s ≡ key t → same_text s t ≡ true
unfolding stricmp key
key-same_text [] [] h = refl
key-same_text [] (d ∷ t) h = ground arith
key-same_text (c ∷ s) [] h = ground arith
key-same_text (c ∷ s) (d ∷ t) h = ground (arith, key-same_text s t)

lex_irrefl : (s : Bytes) → lex s s ≡ false
unfolding lex
lex_irrefl [] = refl
lex_irrefl (c ∷ s) = rw (==-refl c) (lex_irrefl s)

lex_trans : (s t u : Bytes) → lex s t ≡ true → lex t u ≡ true → lex s u ≡ true
unfolding lex
lex_trans [] [] u h k = cc
lex_trans [] (d ∷ t) [] h k = cc
lex_trans [] (d ∷ t) (e ∷ u) h k = refl
lex_trans (c ∷ s) [] u h k = cc
lex_trans (c ∷ s) (d ∷ t) [] h k = cc
lex_trans (c ∷ s) (d ∷ t) (e ∷ u) h k = ground (arith, lex_trans s t u)

lex_total : (s t : Bytes) → lex s t ≡ false → lex t s ≡ false → s ≡ t
unfolding lex
lex_total [] [] h k = refl
lex_total [] (d ∷ t) h k = cc
lex_total (c ∷ s) [] h k = cc
lex_total (c ∷ s) (d ∷ t) h k = ground (arith, lex_total s t)

-- Strings with one key are the same to every comparison.
pub same_text_cong : (s t u : Bytes) → same_text s t ≡ true → same_text s u ≡ same_text t u
same_text_cong s t u h = elim (Bool-cases (same_text t u)) [
  | inl e ↦ key-same_text s u (same_text-key s t h ∙ same_text-key t u e) ∙ sym e
  | inr e ↦ elim (Bool-cases (same_text s u)) [
    | inl f ↦
        let wrong : same_text t u ≡ true =
          key-same_text t u (sym (same_text-key s t h) ∙ same_text-key s u f) in
        cc
    | inr f ↦ f ∙ sym e
  ]
]

pub same_text_sym : (s t : Bytes) → same_text s t ≡ true → same_text t s ≡ true
same_text_sym s t h = key-same_text t s (sym (same_text-key s t h))

-- Of two strings that are not the same one comes first.
pub is_before_total :
    (s t : Bytes) → same_text s t ≡ false → is_before s t ≡ false → is_before t s ≡ true
is_before_total s t h k = elim (Bool-cases (lex (key t) (key s))) [
  | inl e ↦ is_before-lex t s ∙ e
  | inr e ↦
      let same : same_text s t ≡ true =
        key-same_text s t (lex_total (key s) (key t) (sym (is_before-lex s t) ∙ k) e) in
      cc
]

pub is_before_trans :
    (s t u : Bytes) → is_before s t ≡ true → is_before t u ≡ true → is_before s u ≡ true
is_before_trans s t u h k =
    is_before-lex s u
    ∙ lex_trans (key s) (key t) (key u) (sym (is_before-lex s t) ∙ h) (sym (is_before-lex t u) ∙ k)

pub is_before_irrefl : (s t : Bytes) → is_before s t ≡ true → same_text s t ≡ false
is_before_irrefl s t h = elim (Bool-cases (same_text s t)) [
  | inr e ↦ e
  | inl e ↦
      let wrong : true ≡ false =
        sym h
        ∙ is_before-lex s t
        ∙ ap (λ k. lex k (key t)) (same_text-key s t e)
        ∙ lex_irrefl (key t) in
      cc
]

pub is_before_same :
    (s t u : Bytes) → is_before s t ≡ true → same_text t u ≡ true → is_before s u ≡ true
is_before_same s t u h e =
    is_before-lex s u ∙ ap (lex (key s)) (sym (same_text-key t u e)) ∙ sym (is_before-lex s t) ∙ h

pub same_is_before :
    (s t u : Bytes) → same_text s t ≡ true → is_before t u ≡ true → is_before s u ≡ true
same_is_before s t u e h =
    is_before-lex s u ∙ ap (λ k. lex k (key u)) (same_text-key s t e) ∙ sym (is_before-lex t u) ∙ h

pub same_text_right : (s t u : Bytes) → same_text t u ≡ true → same_text s t ≡ same_text s u
same_text_right s t u h = elim (Bool-cases (same_text s u)) [
  | inl e ↦ key-same_text s t (same_text-key s u e ∙ sym (same_text-key t u h)) ∙ sym e
  | inr e ↦ elim (Bool-cases (same_text s t)) [
    | inl f ↦
        let wrong : same_text s u ≡ true =
          key-same_text s u (same_text-key s t f ∙ same_text-key t u h) in
        cc
    | inr f ↦ f ∙ sym e
  ]
]
