-- ===== src/Database/Encoding.antt =====
-- datafiles.c: the fields of a record in a file, and the bytes that each is written as.
use k9_chatnet.Common.{
  ℕ, zero, suc, ◌+◌, ◌-◌, ◌/◌, ◌%◌, ◌^◌, ◌≤◌, ◌≡◌, refl, sym, ap, ◌∙◌, Bool, true, false, List, [],
  ◌∷◌, ◌++◌, Bytes, Option, none, some, arith, take, length, append_assoc, append-nil,
  if◌then◌else◌, leb,
}
use k9_chatnet.Database.{
  File, fputc, and_then, fwrite, write_int16, write_int32, write_ptr, write_string, stored,
}

pub data Field : Type 0 where
  int16 : ℕ → Field
  int32 : ℕ → Field
  ptr : Bool → Field
  string : Option Bytes → Field

unfoldable pub write_field : Field → File → File × Bool
write_field (int16 n) f = write_int16 n f
write_field (int32 n) f = write_int32 n f
write_field (ptr set) f = write_ptr set f
write_field (string s) f = write_string s f

-- A record: the first error ends it, as it ends the functions that write a database.
unfoldable pub write_fields : List Field → File → File × Bool
write_fields [] f = (f, true)
write_fields (x ∷ xs) f = and_then (write_field x f) (write_fields xs)

abbrev pub int16_bytes : ℕ → Bytes
int16_bytes n = n / 2 ^ 8 % 2 ^ 8 ∷ n % 2 ^ 8 ∷ []

abbrev pub string_bytes : Option Bytes → Bytes
string_bytes none = int16_bytes 0
string_bytes (some s) = int16_bytes (length (stored s) + 1) ++ (stored s ++ 0 ∷ [])

abbrev pub field_bytes : Field → Bytes
field_bytes (int16 n) = int16_bytes n
field_bytes (int32 n) = n / 2 ^ 24 % 2 ^ 8 ∷ n / 2 ^ 16 % 2 ^ 8 ∷ n / 2 ^ 8 % 2 ^ 8 ∷ n % 2 ^ 8 ∷ []
field_bytes (ptr set) = (if set then 1 else 0) ∷ []
field_bytes (string s) = string_bytes s

abbrev pub fields_bytes : List Field → Bytes
fields_bytes [] = []
fields_bytes (x ∷ xs) = field_bytes x ++ fields_bytes xs

and_then_assoc :
    (r : File × Bool) (g h : File → File × Bool)
    → and_then (and_then r g) h ≡ and_then r (λ f. and_then (g f) h)
and_then_assoc (f, true) g h = refl
and_then_assoc (f, false) g h = refl

fwrite-append : (s t : Bytes) (f : File) → fwrite (s ++ t) f ≡ and_then (fwrite s f) (fwrite t)
unfolding fwrite
fwrite-append [] t f = refl
fwrite-append (c ∷ s) t f =
    (λ k. and_then (fputc c f) (λ g. fwrite-append s t g k))
    ∙ sym (and_then_assoc (fputc c f) (fwrite s) (fwrite t))

pub and_then-true : (r : File × Bool) → and_then r (λ f. (f, true)) ≡ r
and_then-true (f, true) = refl
and_then-true (f, false) = refl

fwrite_one : (c : ℕ) (f : File) → fwrite (c ∷ []) f ≡ fputc c f
unfolding fwrite
fwrite_one c f = and_then-true (fputc c f)

write_int16-bytes : (n : ℕ) (f : File) → write_int16 n f ≡ fwrite (int16_bytes n) f
unfolding write_int16 fwrite
write_int16-bytes n f =
    λ k. and_then (fputc (n / 2 ^ 8 % 2 ^ 8) f) (λ g. sym (and_then-true (fputc (n % 2 ^ 8) g)) k)

text_bytes : (s : Bytes) (f : File) → and_then (fwrite s f) (fputc 0) ≡ fwrite (s ++ 0 ∷ []) f
text_bytes s f =
    (λ k. and_then (fwrite s f) (λ g. sym (fwrite_one 0 g) k)) ∙ sym (fwrite-append s (0 ∷ []) f)

write_string-bytes : (s : Option Bytes) (f : File) → write_string s f ≡ fwrite (string_bytes s) f
unfolding write_string
write_string-bytes none f = write_int16-bytes 0 f
write_string-bytes (some s) f =
    (λ k. and_then (write_int16-bytes (length (stored s) + 1) f k) (λ g. text_bytes (stored s) g k))
    ∙ sym (fwrite-append (int16_bytes (length (stored s) + 1)) (stored s ++ 0 ∷ []) f)

write_field-bytes : (x : Field) (f : File) → write_field x f ≡ fwrite (field_bytes x) f
unfolding write_field
write_field-bytes (int16 n) f = write_int16-bytes n f
write_field-bytes (int32 n) f =
    unfold write_int32 fwrite in
    λ k. and_then (fputc (n / 2 ^ 24 % 2 ^ 8) f) (λ f. and_then (fputc (n / 2 ^ 16 % 2 ^ 8) f) (λ f.
      and_then (fputc (n / 2 ^ 8 % 2 ^ 8) f) (λ g. sym (and_then-true (fputc (n % 2 ^ 8) g)) k)))
write_field-bytes (ptr set) f =
    unfold write_ptr fwrite in sym (and_then-true (fputc (if set then 1 else 0) f))
write_field-bytes (string s) f = write_string-bytes s f

-- A record is written as the bytes of its fields.
pub write_fields-bytes :
    (xs : List Field) (f : File) → write_fields xs f ≡ fwrite (fields_bytes xs) f
unfolding write_fields
write_fields-bytes [] f = unfold fwrite in refl
write_fields-bytes (x ∷ xs) f =
    (λ k. and_then (write_field-bytes x f k) (λ g. write_fields-bytes xs g k))
    ∙ sym (fwrite-append (field_bytes x) (fields_bytes xs) f)

fwrite-room_of :
    (s : Bytes) (w : Bytes) (n : ℕ)
    → fwrite s (record { written = w; room = n })
      ≡ (record { written = w ++ take n s; room = n - length s }, leb (length s) n)
unfolding fwrite
fwrite-room_of [] w zero = λ k. (record { written = sym (append-nil w) k; room = 0 }, true)
fwrite-room_of [] w (suc n) =
    let room : suc n ≡ suc n - 0 = omega arith in
    let enough : true ≡ leb 0 (suc n) = ground arith in
    λ k. (record { written = sym (append-nil w) k; room = room k }, enough k)
fwrite-room_of (c ∷ s) w zero =
    let room : 0 ≡ 0 - length (c ∷ s) = omega arith in
    let enough : false ≡ leb (length (c ∷ s)) 0 = ground arith in
    λ k. (record { written = sym (append-nil w) k; room = room k }, enough k)
fwrite-room_of (c ∷ s) w (suc n) =
    let room : n - length s ≡ suc n - length (c ∷ s) = omega arith in
    let enough : leb (length s) n ≡ leb (length (c ∷ s)) (suc n) = ground arith in
    fwrite-room_of s (w ++ c ∷ []) n
    ∙ (λ k. (record { written = append_assoc w (c ∷ []) (take n s) k; room = room k }, enough k))

fwrite-room :
    (s : Bytes) (f : File)
    → fwrite s f ≡ (
      record { written = f.written ++ take f.room s; room = f.room - length s },
      leb (length s) f.room,
    )
fwrite-room s f = fwrite-room_of s f.written f.room

-- The bytes of a record are written as far as there is room for them, and the result is an error
-- exactly when that is not all of them.
pub write_fields-room :
    (xs : List Field) (f : File)
    → let bytes = fields_bytes xs in
      write_fields xs f ≡ (
        record { written = f.written ++ take f.room bytes; room = f.room - length bytes },
        leb (length bytes) f.room,
      )
write_fields-room xs f = write_fields-bytes xs f ∙ fwrite-room (fields_bytes xs) f

take_all : (n : ℕ) (s : Bytes) → length s ≤ n → take n s ≡ s
take_all zero [] h = refl
take_all zero (c ∷ s) h = absurd (omega arith)
take_all (suc n) [] h = refl
take_all (suc n) (c ∷ s) h = ap (◌∷◌ c) (take_all n s (omega arith))

-- Without an error, all of it is written.
pub write_fields-written :
    (xs : List Field) (f f' : File)
    → write_fields xs f ≡ (f', true)
    → f'.written ≡ f.written ++ fields_bytes xs
write_fields-written xs f f' e =
    let both = sym (write_fields-room xs f) ∙ e in
    let enough : leb (length (fields_bytes xs)) f.room ≡ true = λ k. (both k).1 in
    (λ k. (sym both k).0.written)
    ∙ ap (λ t. f.written ++ t) (take_all f.room (fields_bytes xs) (ground arith))
