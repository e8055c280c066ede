-- ===== src/Database.antt =====
-- datafiles.c: the encoding of numbers, pointers and strings. A file that is read is the list of the
-- bytes that are left, one that is written what has been written and the room that is left for it. A
-- result of -1 is false or none. Big-endian: the most significant byte is first.
pub mod Encoding
pub mod RoundTrip
pub mod Truncated
use k9_chatnet.Common.{
  ℕ, zero, suc, ◌+◌, ◌*◌, ◌/◌, ◌%◌, ◌^◌, Bool, true, false, List, [], ◌∷◌, ◌++◌, Bytes, Option,
  none, some, take, drop, length, leb, ltb, ◌==◌, if◌then◌else◌, not, ◌||◌,
}

pub record File : Type 0 where
  pub written : Bytes
  pub room : ℕ

-- `fputc`, false for EOF
abbrev pub fputc : ℕ → File → File × Bool
fputc c f = elim f.room [
  | zero ↦ (f, false)
  | suc n ↦ (record { written = f.written ++ c ∷ []; room = n }, true)
]

-- The next write, if the one before it has succeeded.
abbrev pub and_then : File × Bool → (File → File × Bool) → File × Bool
and_then (f, false) next = (f, false)
and_then (f, true) next = next f

-- `fwrite(s, 1, len, f) == len`
unfoldable pub fwrite : Bytes → File → File × Bool
fwrite [] f = (f, true)
fwrite (c ∷ s) f = and_then (fputc c f) (fwrite s)

unfoldable pub write_int16 : ℕ → File → File × Bool
write_int16 val f = and_then (fputc (val / 2 ^ 8 % 2 ^ 8) f) (fputc (val % 2 ^ 8))

unfoldable pub write_int32 : ℕ → File → File × Bool
write_int32 val f = and_then (fputc (val / 2 ^ 24 % 2 ^ 8) f) (λ f.
    and_then (fputc (val / 2 ^ 16 % 2 ^ 8) f)
      (λ f. and_then (fputc (val / 2 ^ 8 % 2 ^ 8) f) (fputc (val % 2 ^ 8))))

unfoldable pub write_ptr : Bool → File → File × Bool
write_ptr set f = fputc (if set then 1 else 0) f

-- The part of a string that is written: at most 65534 bytes.
abbrev pub stored : Bytes → Bytes
stored s = if ltb 65534 (length s) then take 65534 s else s

unfoldable pub write_string : Option Bytes → File → File × Bool
unfolding write_int16
write_string none f = write_int16 0 f
write_string (some s) f =
    and_then (write_int16 (length (stored s) + 1) f) (λ f. and_then (fwrite (stored s) f) (fputc 0))

unfoldable pub read_int16 : Bytes → Option (ℕ × Bytes)
read_int16 (c1 ∷ c2 ∷ s) = some (c1 * 2 ^ 8 + c2, s)
read_int16 _ = none

unfoldable pub read_int32 : Bytes → Option (ℕ × Bytes)
read_int32 (c1 ∷ c2 ∷ c3 ∷ c4 ∷ s) = some (c1 * 2 ^ 24 + c2 * 2 ^ 16 + c3 * 2 ^ 8 + c4, s)
read_int32 _ = none

unfoldable pub read_ptr : Bytes → Option (Bool × Bytes)
read_ptr [] = none
read_ptr (c ∷ s) = some (not (c == 0), s)

-- The buffer of `len` bytes that `fread` fills, if that many are left.
abbrev pub read_buffer : Option (ℕ × Bytes) → Option (Option Bytes × Bytes)
read_buffer none = none
read_buffer (some (len, s)) =
    if len == 0
    then some (none, s)
    else if leb len (length s)
    then some (some (take len s), drop len s)
    else none

unfoldable pub read_string : Bytes → Option (Option Bytes × Bytes)
read_string s = read_buffer (read_int16 s)

-- `get_file_version`: the four bytes as an `int`, and 0 where it is below 1 or the file ends.
abbrev pub version_of : Option (ℕ × Bytes) → ℕ
version_of none = 0
version_of (some (v, s)) = if ltb v (2 ^ 31) then v else 0

unfoldable pub get_file_version : Bytes → ℕ
unfolding read_int32
get_file_version s = version_of (read_int32 s)

unfoldable pub write_file_version : ℕ → File → File × Bool
unfolding write_int32
write_file_version version f = write_int32 version f
