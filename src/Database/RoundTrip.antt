-- ===== src/Database/RoundTrip.antt =====
-- datafiles.c: what is read of a record that was written.
use k9_chatnet.Common.{
  ℕ, ◌+◌, ◌*◌, ◌/◌, ◌%◌, ◌^◌, ◌≤◌, ◌<◌, ◌≡◌, refl, ap, ◌∙◌, Bool, true, false, List, [], ◌∷◌, ◌++◌,
  Bytes, Option, none, some, arith, take, drop, length, length-append, length-take, append_assoc,
  leb, ltb, ◌==◌, All, Bool-cases, inl, inr,
}
use k9_chatnet.Database.{
  File, read_int16, read_int32, read_ptr, read_string, read_buffer, stored, get_file_version,
  version_of, write_file_version, write_int32,
}
use k9_chatnet.Database.Encoding.{
  Field, int16, int32, ptr, string, int16_bytes, field_bytes, fields_bytes, write_field,
  write_fields, write_fields-written, and_then-true,
}
use k9_chatnet.Common.{take-length}

-- What a reader gets: the kinds of the fields tell it how to read them.
pub data Kind : Type 0 where
  an_int16 : Kind
  an_int32 : Kind
  a_ptr : Kind
  a_string : Kind

pub data Value : Type 0 where
  number : ℕ → Value
  pointer : Bool → Value
  buffer : Option Bytes → Value

abbrev pub as_value : {A : Type 0} → (A → Value) → Option (A × Bytes) → Option (Value × Bytes)
as_value f none = none
as_value f (some (a, s)) = some (f a, s)

unfoldable pub read_field : Kind → Bytes → Option (Value × Bytes)
read_field an_int16 s = as_value number (read_int16 s)
read_field an_int32 s = as_value number (read_int32 s)
read_field a_ptr s = as_value pointer (read_ptr s)
read_field a_string s = as_value buffer (read_string s)

abbrev pub cons_value : Value → Option (List Value × Bytes) → Option (List Value × Bytes)
cons_value v none = none
cons_value v (some (vs, s)) = some (v ∷ vs, s)

abbrev pub next_field :
    (Bytes → Option (List Value × Bytes)) → Option (Value × Bytes) → Option (List Value × Bytes)
next_field again none = none
next_field again (some (v, s)) = cons_value v (again s)

unfoldable pub read_fields : List Kind → Bytes → Option (List Value × Bytes)
read_fields [] s = some ([], s)
read_fields (k ∷ ks) s = next_field (read_fields ks) (read_field k s)

abbrev pub kind : Field → Kind
kind (int16 n) = an_int16
kind (int32 n) = an_int32
kind (ptr set) = a_ptr
kind (string s) = a_string

-- A string comes back with its NUL, and cut off behind 65534 bytes.
abbrev pub value : Field → Value
value (int16 n) = number n
value (int32 n) = number n
value (ptr set) = pointer set
value (string none) = buffer none
value (string (some s)) = buffer (some (stored s ++ 0 ∷ []))

abbrev pub kinds : List Field → List Kind
kinds [] = []
kinds (x ∷ xs) = kind x ∷ kinds xs

abbrev pub values : List Field → List Value
values [] = []
values (x ∷ xs) = value x ∷ values xs

-- The numbers fit the types of the fields.
abbrev pub Fits : Field → Type 0
Fits (int16 n) = n < 2 ^ 16
Fits (int32 n) = n < 2 ^ 32
Fits (ptr set) = Unit
Fits (string s) = Unit

drop-length : (s t : Bytes) → drop (length s) (s ++ t) ≡ t
drop-length [] t = refl
drop-length (c ∷ s) t = drop-length s t

length-stored : (s : Bytes) → length (stored s) ≤ 65534
length-stored s = elim (Bool-cases (ltb 65534 (length s))) [
  | inl long ↦ rw long (omega (arith, length-take 65534 s))
  | inr short ↦ rw short (ground arith)
]

read_int16-bytes : (n : ℕ) (s : Bytes) → n < 2 ^ 16 → read_int16 (int16_bytes n ++ s) ≡ some (n, s)
unfolding read_int16
read_int16-bytes n s h = ap (λ m. some (m, s)) (omega arith)

read_buffer-text :
    (t s : Bytes) (n : ℕ) → n ≡ length t → 0 < n → read_buffer (some (n, t ++ s)) ≡ some (some t, s)
read_buffer-text t s n e h =
    let full : (n == 0) ≡ false = ground arith in
    let enough : leb n (length (t ++ s)) ≡ true = ground (arith, length-append t s) in
    let front : take n (t ++ s) ≡ t = ap (λ m. take m (t ++ s)) e ∙ take-length t s in
    let back : drop n (t ++ s) ≡ s = ap (λ m. drop m (t ++ s)) e ∙ drop-length t s in
    rw (full, enough) (λ k. some (some (front k), back k))

read_field-bytes :
    (x : Field) (s : Bytes) → Fits x → read_field (kind x) (field_bytes x ++ s) ≡ some (value x, s)
unfolding read_field
read_field-bytes (int16 n) s h = ap (as_value number) (read_int16-bytes n s h)
read_field-bytes (int32 n) s h = unfold read_int32 in ap (λ m. some (number m, s)) (omega arith)
read_field-bytes (ptr true) s h = unfold read_ptr in refl
read_field-bytes (ptr false) s h = unfold read_ptr in refl
read_field-bytes (string none) s h = unfold read_string read_int16 in refl
read_field-bytes (string (some t)) s h =
    unfold read_string in
    let size = length-append (stored t) (0 ∷ []) in
    ap (as_value buffer) (
      ap read_buffer (
        read_int16-bytes (length (stored t) + 1) ((stored t ++ 0 ∷ []) ++ s)
          (omega (arith, length-stored t)))
      ∙ read_buffer-text (stored t ++ 0 ∷ []) s (length (stored t) + 1) (omega (arith, size))
          (omega arith))

pub read_fields-bytes :
    (xs : List Field) (s : Bytes)
    → All Fits xs
    → read_fields (kinds xs) (fields_bytes xs ++ s) ≡ some (values xs, s)
unfolding read_fields
read_fields-bytes [] s h = refl
read_fields-bytes (x ∷ xs) s (h, hs) =
    ap (λ t. next_field (read_fields (kinds xs)) (read_field (kind x) t))
      (append_assoc (field_bytes x) (fields_bytes xs) s)
    ∙ ap (next_field (read_fields (kinds xs))) (read_field-bytes x (fields_bytes xs ++ s) h)
    ∙ ap (cons_value (value x)) (read_fields-bytes xs s hs)

-- A record of numbers, pointers and strings that was written without an error is read back as it was,
-- each string with its NUL and cut off behind 65534 bytes, and what follows it is left.
pub read_fields-write_fields :
    (xs : List Field) (f f' : File) (s : Bytes)
    → All Fits xs
    → write_fields xs f ≡ (f', true)
    → read_fields (kinds xs) (drop (length f.written) (f'.written ++ s)) ≡ some (values xs, s)
read_fields-write_fields xs f f' s h e =
    let bytes = fields_bytes xs in
    ap (λ t. read_fields (kinds xs) (drop (length f.written) (t ++ s)))
      (write_fields-written xs f f' e)
    ∙ ap (λ t. read_fields (kinds xs) (drop (length f.written) t)) (append_assoc f.written bytes s)
    ∙ ap (read_fields (kinds xs)) (drop-length f.written (bytes ++ s))
    ∙ read_fields-bytes xs s h

-- A version number that is positive and fits an `int` is read back from the front of the file.
pub get_file_version-write_file_version :
    (v : ℕ) (f f' : File) (s : Bytes)
    → v < 2 ^ 31
    → f.written ≡ []
    → write_file_version v f ≡ (f', true)
    → get_file_version (f'.written ++ s) ≡ v
unfolding get_file_version write_file_version read_int32
get_file_version-write_file_version v f f' s h start e =
    let one : write_fields (int32 v ∷ []) f ≡ write_int32 v f =
      unfold write_fields write_field in and_then-true (write_int32 v f) in
    let all : f'.written ≡ f.written ++ field_bytes (int32 v) =
      write_fields-written (int32 v ∷ []) f f' (one ∙ e) in
    let same : v / 2 ^ 24 % 2 ^ 8 * 2 ^ 24
          + v / 2 ^ 16 % 2 ^ 8 * 2 ^ 16
          + v / 2 ^ 8 % 2 ^ 8 * 2 ^ 8
          + v % 2 ^ 8
        ≡ v =
      omega arith in
    let small : ltb v (2 ^ 31) ≡ true = ground arith in
    ap (λ t. get_file_version (t ++ s)) (all ∙ ap (λ t. t ++ field_bytes (int32 v)) start)
    ∙ ap (λ m. version_of (some (m, s))) same
    ∙ rw small refl
