-- ===== src/Text/Token.antt =====
-- misc.c `myStrSubString`, `myStrGetToken` and `myStrGetTokenRemainder`, on strings that are not NULL.
use k9_chatnet.Common.{
  ℕ, zero, suc, ◌+◌, ◌-◌, ◌<◌, ◌≡◌, refl, sym, ap, ap₂, ◌∙◌, inl, inr, true, false, ◌&&◌, List, [],
  ◌∷◌, ◌++◌, Bytes, Option, none, some, arith, take, drop, length, get_elem?, leb, ltb, ◌==◌,
  if◌then◌else◌, length-append, append_assoc, append-nil, Bool-cases,
}

unfoldable pub my_str_sub_string : Bytes → ℕ → ℕ → Option Bytes
my_str_sub_string src start end =
    if leb end (length src) && ltb start end
    then some (take (end - start) (drop start src))
    else none

-- The loop from `idx` on: `rest` is what stands there, `substring` what an earlier round has set. The
-- last argument is the end of the substring that is taken in the round for a given index.
unfoldable pub token_loop :
    (Bytes → ℕ → ℕ) → Bytes → ℕ → ℕ → Bytes → ℕ → ℕ → ℕ → Option Bytes → Option Bytes
token_loop end_at str dilim number [] idx counter start substring =
    if counter == number then my_str_sub_string str start (end_at str idx) else substring
token_loop end_at str dilim number (c ∷ rest) idx counter start substring =
    if c == dilim
    then if counter == number
      then token_loop end_at str dilim number rest (idx + 1) (counter + 1) start
          (my_str_sub_string str start (end_at str idx))
      else token_loop end_at str dilim number rest (idx + 1) (counter + 1) (idx + 1) substring
    else token_loop end_at str dilim number rest (idx + 1) counter start substring

abbrev pub at_index : Bytes → ℕ → ℕ
at_index str idx = idx

abbrev pub at_length : Bytes → ℕ → ℕ
at_length str idx = length str

unfoldable pub my_str_get_token : Bytes → ℕ → ℕ → Option Bytes
my_str_get_token str dilim number = token_loop at_index str dilim number str 0 0 0 none

unfoldable pub my_str_get_token_remainder : Bytes → ℕ → ℕ → Option Bytes
my_str_get_token_remainder str dilim number = token_loop at_length str dilim number str 0 0 0 none

-- The fields between the delimiters, the first of which begins with `field`, and for each what stands
-- from its first byte on.
pub fields : ℕ → Bytes → Bytes → List (Bytes × Bytes)
fields d field [] = (field, field ++ []) ∷ []
fields d field (c ∷ rest) =
    if c == d
    then (field, field ++ c ∷ rest) ∷ fields d [] rest
    else fields d (field ++ c ∷ []) rest

abbrev pub non_empty : Bytes → Option Bytes
non_empty [] = none
non_empty (c ∷ s) = some (c ∷ s)

-- The field of a number, if there is one and it has a byte.
abbrev pub field_of : Option (Bytes × Bytes) → Option Bytes
field_of none = none
field_of (some (field, rest)) = non_empty field

abbrev pub remainder_of : Option (Bytes × Bytes) → Option Bytes
remainder_of none = none
remainder_of (some (field, rest)) = non_empty rest

drop-length_append : (s t : Bytes) → drop (length s) (s ++ t) ≡ t
drop-length_append [] t = refl
drop-length_append (c ∷ s) t = drop-length_append s t

take-length_append : (s t : Bytes) → take (length s) (s ++ t) ≡ s
take-length_append [] t = refl
take-length_append (c ∷ s) t = ap (◌∷◌ c) (take-length_append s t)

sub_string-middle :
    (before field rest : Bytes) (start end : ℕ)
    → start ≡ length before
    → end ≡ start + length field
    → my_str_sub_string (before ++ (field ++ rest)) start end ≡ non_empty field
unfolding my_str_sub_string
sub_string-middle before [] rest start end hs he =
    let nothing : (leb end (length (before ++ rest)) && ltb start end) ≡ false = ground arith in
    rw nothing refl
sub_string-middle before (c ∷ field) rest start end hs he =
    let inside : (leb end (length (before ++ ((c ∷ field) ++ rest))) && ltb start end) ≡ true =
      ground (arith, length-append before ((c ∷ field) ++ rest), length-append (c ∷ field) rest) in
    let size : end - start ≡ length (c ∷ field) = omega (arith, he) in
    rw inside (
      ap some (
        ap₂ (λ n m. take n (drop m (before ++ ((c ∷ field) ++ rest)))) size hs
        ∙ ap (take (length (c ∷ field))) (drop-length_append before ((c ∷ field) ++ rest))
        ∙ take-length_append (c ∷ field) rest))

-- After the field of the number, nothing changes.
token_loop_past :
    (end_at : Bytes → ℕ → ℕ) (str rest : Bytes) (dilim number idx counter start : ℕ)
    (substring : Option Bytes)
    → number < counter
    → token_loop end_at str dilim number rest idx counter start substring ≡ substring
unfolding token_loop
token_loop_past end_at str [] dilim number idx counter start substring h = ground arith
token_loop_past end_at str (c ∷ rest) dilim number idx counter start substring h =
    let other : (counter == number) ≡ false = ground arith in
    elim (Bool-cases (c == dilim)) [
      | inl hit ↦ rw hit (
          rw other (
            token_loop_past end_at str rest dilim number (idx + 1) (counter + 1) (idx + 1) substring
              (omega arith)))
      | inr miss ↦
          rw miss (token_loop_past end_at str rest dilim number (idx + 1) counter start substring h)
    ]

module _ (end_at : Bytes → ℕ → ℕ) (out : Bytes × Bytes → Option Bytes) (str : Bytes) (dilim : ℕ)
    (sub_string : (before field rest : Bytes) (start idx : ℕ)
      → str ≡ before ++ (field ++ rest)
      → start ≡ length before
      → idx ≡ start + length field
      → my_str_sub_string str start (end_at str idx) ≡ out (field, field ++ rest)) where
  abbrev pick : Option (Bytes × Bytes) → Option Bytes
  pick none = none
  pick (some f) = out f

  token_loop-pick :
      (before field rest : Bytes) (number idx counter start k : ℕ)
      → str ≡ before ++ (field ++ rest)
      → start ≡ length before
      → idx ≡ start + length field
      → number ≡ counter + k
      → token_loop end_at str dilim number rest idx counter start none
        ≡ pick (get_elem? (fields dilim field rest) k)
  unfolding token_loop fields
  token_loop-pick before field [] number idx counter start zero e hs hi hk =
      let now : (counter == number) ≡ true = ground arith in
      rw now (sub_string before field [] start idx e hs hi)
  token_loop-pick before field [] number idx counter start (suc k) e hs hi hk =
      let later : (counter == number) ≡ false = ground arith in rw later refl
  token_loop-pick before field (c ∷ rest) number idx counter start zero e hs hi hk =
      let now : (counter == number) ≡ true = ground arith in
      elim (Bool-cases (c == dilim)) [
        | inl hit ↦ rw hit (
            rw now (
              token_loop_past end_at str rest dilim number (idx + 1) (counter + 1) start _
                (omega arith)
              ∙ sub_string before field (c ∷ rest) start idx e hs hi))
        | inr miss ↦ rw miss (
            token_loop-pick before (field ++ c ∷ []) rest number (idx + 1) counter start 0
              (e ∙ ap (λ t. before ++ t) (sym (append_assoc field (c ∷ []) rest))) hs
              (omega (arith, length-append field (c ∷ []))) hk)
      ]
  token_loop-pick before field (c ∷ rest) number idx counter start (suc k) e hs hi hk =
      let later : (counter == number) ≡ false = ground arith in
      elim (Bool-cases (c == dilim)) [
        | inl hit ↦ rw hit (
            rw later (
              token_loop-pick (before ++ (field ++ c ∷ [])) [] rest number (idx + 1) (counter + 1)
                (idx + 1) k
                (e
                  ∙ ap (λ t. before ++ t) (sym (append_assoc field (c ∷ []) rest))
                  ∙ sym (append_assoc before (field ++ c ∷ []) rest))
                (omega
                  (arith, length-append before (field ++ c ∷ []), length-append field (c ∷ [])))
                (omega arith) (omega arith)))
        | inr miss ↦ rw miss (
            token_loop-pick before (field ++ c ∷ []) rest number (idx + 1) counter start (suc k)
              (e ∙ ap (λ t. before ++ t) (sym (append_assoc field (c ∷ []) rest))) hs
              (omega (arith, length-append field (c ∷ []))) hk)
      ]

-- The token of a number is the field of that number between the delimiters, or NULL where there is no
-- such field or it is empty.
pub my_str_get_token-fields :
    (str : Bytes) (dilim number : ℕ)
    → my_str_get_token str dilim number ≡ field_of (get_elem? (fields dilim [] str) number)
unfolding my_str_get_token
my_str_get_token-fields str dilim number =
    token_loop-pick at_index (λ f. non_empty f.0) str dilim
      (λ before field rest start idx e hs hi.
        ap (λ t. my_str_sub_string t start idx) e
        ∙ sub_string-middle before field rest start idx hs hi)
      [] [] str number 0 0 0 number refl refl refl (omega arith)
    ∙ same (get_elem? (fields dilim [] str) number)
  where
    same :
        (o : Option (Bytes × Bytes)) → elim o [ none ↦ none | some f ↦ non_empty f.0 ] ≡ field_of o
    same none = refl
    same (some f) = refl

-- The remainder is the string from the first byte of that field on, or NULL where there is no such
-- field or nothing is left.
pub my_str_get_token_remainder-fields :
    (str : Bytes) (dilim number : ℕ)
    → my_str_get_token_remainder str dilim number
      ≡ remainder_of (get_elem? (fields dilim [] str) number)
unfolding my_str_get_token_remainder
my_str_get_token_remainder-fields str dilim number =
    token_loop-pick at_length (λ f. non_empty f.1) str dilim
      (λ before field rest start idx e hs hi.
        ap (λ t. my_str_sub_string t start (length str))
          (e ∙ ap (λ t. before ++ t) (sym (append-nil (field ++ rest))))
        ∙ sub_string-middle before (field ++ rest) [] start (length str) hs
            (omega (arith, hs, ap length e, length-append before (field ++ rest))))
      [] [] str number 0 0 0 number refl refl refl (omega arith)
    ∙ same (get_elem? (fields dilim [] str) number)
  where
    same :
        (o : Option (Bytes × Bytes))
        → elim o [ none ↦ none | some f ↦ non_empty f.1 ] ≡ remainder_of o
    same none = refl
    same (some f) = refl
