-- ===== src/Database/Truncated.antt =====
-- datafiles.c: what is read of a file that ends too early.
use k9_chatnet.Common.{
  ℕ, zero, suc, ◌≤◌, ◌≡◌, ◌≢◌, refl, sym, ap, ◌∙◌, true, List, [], ◌∷◌, ◌++◌, Bytes, Option, none,
  some, arith, take, drop, length, length-append, append-nil, leb, ◌==◌, All, Bool-cases,
  Option-cases, inl, inr,
}
use k9_chatnet.Database.{read_int16, read_int32, read_ptr, read_string, read_buffer}
use k9_chatnet.Database.Encoding.{Field, fields_bytes}
use k9_chatnet.Database.RoundTrip.{
  Kind, an_int16, an_int32, a_ptr, a_string, Value, number, pointer, buffer, as_value, read_field,
  cons_value, next_field, read_fields, kinds, values, Fits, read_fields-bytes,
}

module _ {A : Type 0} where
  -- The result of a reader with more bytes behind those that it was given.
  abbrev pub with_more : Bytes → Option (A × Bytes) → Option (A × Bytes)
  with_more u none = none
  with_more u (some (a, s)) = some (a, s ++ u)

-- A reader that succeeds does the same when there are more bytes.
abbrev Extends : {A : Type 0} → (Bytes → Option (A × Bytes)) → Bytes → Type 0
Extends {A} read s = (u : Bytes) → read s ≢ none → read (s ++ u) ≡ with_more u (read s)

take-append : (n : ℕ) (s u : Bytes) → n ≤ length s → take n (s ++ u) ≡ take n s
take-append zero s u h = refl
take-append (suc n) [] u h = absurd (omega arith)
take-append (suc n) (c ∷ s) u h = ap (◌∷◌ c) (take-append n s u (omega arith))

drop-append : (n : ℕ) (s u : Bytes) → n ≤ length s → drop n (s ++ u) ≡ drop n s ++ u
drop-append zero s u h = refl
drop-append (suc n) [] u h = absurd (omega arith)
drop-append (suc n) (c ∷ s) u h = drop-append n s u (omega arith)

read_int16-Extends : (s : Bytes) → Extends read_int16 s
unfolding read_int16
read_int16-Extends [] u h = absurd (h refl)
read_int16-Extends (a ∷ []) u h = absurd (h refl)
read_int16-Extends (a ∷ b ∷ s) u h = refl

read_int32-Extends : (s : Bytes) → Extends read_int32 s
unfolding read_int32
read_int32-Extends [] u h = absurd (h refl)
read_int32-Extends (a ∷ []) u h = absurd (h refl)
read_int32-Extends (a ∷ b ∷ []) u h = absurd (h refl)
read_int32-Extends (a ∷ b ∷ c ∷ []) u h = absurd (h refl)
read_int32-Extends (a ∷ b ∷ c ∷ d ∷ s) u h = refl

read_ptr-Extends : (s : Bytes) → Extends read_ptr s
unfolding read_ptr
read_ptr-Extends [] u h = absurd (h refl)
read_ptr-Extends (a ∷ s) u h = refl

read_buffer-with_more :
    (o : Option (ℕ × Bytes)) (u : Bytes)
    → read_buffer o ≢ none
    → read_buffer (with_more u o) ≡ with_more u (read_buffer o)
read_buffer-with_more none u h = refl
read_buffer-with_more (some (n, s)) u h = elim (Bool-cases (n == 0)) [
  | inl empty ↦ rw empty refl
  | inr full ↦ elim (Bool-cases (leb n (length s))) [
    | inl enough ↦
        let still : leb n (length (s ++ u)) ≡ true = ground (arith, length-append s u) in
        rw (full, enough, still)
          (λ k.
            some (some (take-append n s u (ground arith) k), drop-append n s u (ground arith) k))
    | inr short ↦ absurd (h (rw (full, short) refl))
  ]
]

read_string-Extends : (s : Bytes) → Extends read_string s
unfolding read_string
read_string-Extends s u h =
    ap read_buffer (read_int16-Extends s u (λ e. h (ap read_buffer e)))
    ∙ read_buffer-with_more (read_int16 s) u h

as_value-with_more :
    {A : Type 0} (f : A → Value) (o : Option (A × Bytes)) (u : Bytes)
    → as_value f (with_more u o) ≡ with_more u (as_value f o)
as_value-with_more f none u = refl
as_value-with_more f (some r) u = refl

as_value-Extends :
    {A : Type 0} (f : A → Value) (read : Bytes → Option (A × Bytes)) (s : Bytes)
    → Extends read s
    → Extends (λ t. as_value f (read t)) s
as_value-Extends f read s h u some_value =
    ap (as_value f) (h u (λ e. some_value (ap (as_value f) e))) ∙ as_value-with_more f (read s) u

read_field-Extends : (k : Kind) (s : Bytes) → Extends (read_field k) s
unfolding read_field
read_field-Extends an_int16 s = as_value-Extends number read_int16 s (read_int16-Extends s)
read_field-Extends an_int32 s = as_value-Extends number read_int32 s (read_int32-Extends s)
read_field-Extends a_ptr s = as_value-Extends pointer read_ptr s (read_ptr-Extends s)
read_field-Extends a_string s = as_value-Extends buffer read_string s (read_string-Extends s)

cons_value-with_more :
    (v : Value) (o : Option (List Value × Bytes)) (u : Bytes)
    → cons_value v (with_more u o) ≡ with_more u (cons_value v o)
cons_value-with_more v none u = refl
cons_value-with_more v (some r) u = refl

next_field-with_more :
    (read : Bytes → Option (List Value × Bytes)) (o : Option (Value × Bytes)) (u : Bytes)
    → ((t : Bytes) → read t ≢ none → read (t ++ u) ≡ with_more u (read t))
    → next_field read o ≢ none
    → next_field read (with_more u o) ≡ with_more u (next_field read o)
next_field-with_more read none u e h = refl
next_field-with_more read (some (v, t)) u e h =
    ap (cons_value v) (e t (λ n. h (ap (cons_value v) n))) ∙ cons_value-with_more v (read t) u

abbrev left_over : Option (List Value × Bytes) → ℕ
left_over none = 0
left_over (some (vs, s)) = length s

read_fields-Extends : (ks : List Kind) (s : Bytes) → Extends (read_fields ks) s
unfolding read_fields
read_fields-Extends [] s u h = refl
read_fields-Extends (k ∷ ks) s u h =
    ap (next_field (read_fields ks))
      (read_field-Extends k s u (λ e. h (ap (next_field (read_fields ks)) e)))
    ∙ next_field-with_more (read_fields ks) (read_field k s) u (λ t. read_fields-Extends ks t u) h

-- A file that ends before the record does is an error.
pub read_fields-truncated :
    (xs : List Field) (s : Bytes) (c : ℕ) (rest : Bytes)
    → All Fits xs
    → fields_bytes xs ≡ s ++ c ∷ rest
    → read_fields (kinds xs) s ≡ none
read_fields-truncated xs s c rest h e = elim (Option-cases (read_fields (kinds xs) s)) [
  | inl failed ↦ failed
  | inr ((vs, r), got) ↦
      let whole : read_fields (kinds xs) (s ++ c ∷ rest) ≡ some (values xs, []) =
        ap (read_fields (kinds xs)) (sym e ∙ sym (append-nil (fields_bytes xs)))
        ∙ read_fields-bytes xs [] h in
      let longer : read_fields (kinds xs) (s ++ c ∷ rest) ≡ some (vs, r ++ c ∷ rest) =
        read_fields-Extends (kinds xs) s (c ∷ rest) (λ n. cc) ∙ ap (with_more (c ∷ rest)) got in
      let nothing : 0 ≡ length (r ++ c ∷ rest) = ap left_over (sym whole ∙ longer) in
      absurd (omega (arith, nothing, length-append r (c ∷ rest)))
]
