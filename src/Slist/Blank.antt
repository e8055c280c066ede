-- ===== src/Slist/Blank.antt =====
-- slist.c: NULLs in the middle of a list.
use k9_chatnet.Common.{
  [], ℕ, zero, suc, ◌+◌, ◌≤◌, ◌<◌, ◌≡◌, refl, sym, ap, ap₂, ◌∙◌, inl, inr, Bool, true, false, ◌&&◌,
  ◌||◌, List, ◌∷◌, map, Option, none, some, arith, length, set, get_elem?, leb, ltb, ◌==◌,
  if◌then◌else◌, Bool-cases,
}
use k9_chatnet.Slist.Pack.{present}

-- NULL is written at the indices that the test holds of; `i` is the index of the first entry.
abbrev pub blank : {A : Type 0} → (ℕ → Bool) → ℕ → List (Option A) → List (Option A)
blank f i [] = []
blank f i (e ∷ es) = (if f i then none else e) ∷ blank f (suc i) es

-- The indices from `a` on, below `b`.
abbrev pub within : ℕ → ℕ → ℕ → Bool
within a b k = leb a k && ltb k b

-- The items of a list that are at none of the indices.
pub unnamed : {A : Type 0} → (ℕ → Bool) → ℕ → List A → List A
unnamed f i [] = []
unnamed f i (x ∷ xs) = if f i then unnamed f (suc i) xs else x ∷ unnamed f (suc i) xs

module _ {A : Type 0} where
  pub length-blank :
      (f : ℕ → Bool) (i : ℕ) (es : List (Option A)) → length (blank f i es) ≡ length es
  length-blank f i [] = refl
  length-blank f i (e ∷ es) = ap suc (length-blank f (suc i) es)

  pub blank-ext :
      (f g : ℕ → Bool) (i : ℕ) (es : List (Option A))
      → ((k : ℕ) → i ≤ k → k < i + length es → f k ≡ g k)
      → blank f i es ≡ blank g i es
  blank-ext f g i [] h = refl
  blank-ext f g i (e ∷ es) h =
      ap₂ ◌∷◌ (ap (λ b. if b then none else e) (h i (omega arith) (omega arith)))
        (blank-ext f g (suc i) es (λ k p q. h k (omega arith) (omega arith)))

  pub if_if :
      (b c : Bool) (e : Option A)
      → (if b then none else (if c then none else e)) ≡ (if c || b then none else e)
  if_if true true e = refl
  if_if true false e = refl
  if_if false true e = refl
  if_if false false e = refl

  pub blank-blank :
      (f g : ℕ → Bool) (i : ℕ) (es : List (Option A))
      → blank f i (blank g i es) ≡ blank (λ k. g k || f k) i es
  blank-blank f g i [] = refl
  blank-blank f g i (e ∷ es) = ap₂ ◌∷◌ (if_if (f i) (g i) e) (blank-blank f g (suc i) es)

  pub blank_nothing :
      (f : ℕ → Bool) (i : ℕ) (es : List (Option A))
      → ((k : ℕ) → i ≤ k → f k ≡ false)
      → blank f i es ≡ es
  blank_nothing f i [] h = refl
  blank_nothing f i (e ∷ es) h =
      ap₂ ◌∷◌ (ap (λ b. if b then none else e) (h i (omega arith)))
        (blank_nothing f (suc i) es (λ k p. h k (omega arith)))

  pub set-blank : (es : List (Option A)) (i j : ℕ) → set es j none ≡ blank (λ k. k == (i + j)) i es
  set-blank [] i j = refl
  set-blank (e ∷ es) i zero =
      let hit : (i == (i + 0)) ≡ true = ground arith in
      rw hit
        (ap (◌∷◌ none) (sym (blank_nothing (λ k. k == (i + 0)) (suc i) es (λ k p. ground arith))))
  set-blank (e ∷ es) i (suc j) =
      let miss : (i == (i + suc j)) ≡ false = ground arith in
      rw miss (
        ap (◌∷◌ e) (
          set-blank es (suc i) j
          ∙ blank-ext (λ k. k == (suc i + j)) (λ k. k == (i + suc j)) (suc i) es
              (λ k p q. ap (λ n. k == n) (omega arith))))

  pub length-present-some : (xs : List A) → length (present (map some xs)) ≡ length xs
  unfolding present
  length-present-some [] = refl
  length-present-some (x ∷ xs) = ap suc (length-present-some xs)

  pub present-unnamed :
      (f : ℕ → Bool) (i : ℕ) (xs : List A)
      → present (blank f i (map some xs)) ≡ map some (unnamed f i xs)
  unfolding present unnamed
  present-unnamed f i [] = refl
  present-unnamed f i (x ∷ xs) = elim (Bool-cases (f i)) [
    | inl hit ↦ rw hit (present-unnamed f (suc i) xs)
    | inr miss ↦ rw miss (ap (◌∷◌ (some x)) (present-unnamed f (suc i) xs))
  ]

  pub set_null : (es : List (Option A)) (i : ℕ) → get_elem? es i ≡ some none → set es i none ≡ es
  set_null [] i h = refl
  set_null (none ∷ es) zero h = refl
  set_null (some y ∷ es) zero h = cc
  set_null (e ∷ es) (suc i) h = ap (◌∷◌ e) (set_null es i h)

  pub set_past : (es : List (Option A)) (i : ℕ) → get_elem? es i ≡ none → set es i none ≡ es
  set_past [] i h = refl
  set_past (e ∷ es) zero h = cc
  set_past (e ∷ es) (suc i) h = ap (◌∷◌ e) (set_past es i h)

  pub set-blank_at : (es : List (Option A)) (i : ℕ) → set es i none ≡ blank (λ k. k == i) 0 es
  set-blank_at es i =
      set-blank es 0 i
      ∙ blank-ext (λ k. k == (0 + i)) (λ k. k == i) 0 es (λ k p q. ap (λ n. k == n) (omega arith))

  -- A cleared entry is one less that is not NULL.
  pub present_fewer :
      (es : List (Option A)) (i : ℕ) (x : A)
      → get_elem? es i ≡ some (some x)
      → length (present (set es i none)) + 1 ≡ length (present es)
  unfolding present
  present_fewer [] i x h = cc
  present_fewer (none ∷ es) zero x h = cc
  present_fewer (some y ∷ es) zero x h = omega arith
  present_fewer (none ∷ es) (suc i) x h = present_fewer es i x h
  present_fewer (some y ∷ es) (suc i) x h = omega (arith, present_fewer es i x h)
