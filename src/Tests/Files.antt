-- ===== src/Tests/Files.antt =====
-- datafiles.c: a record of four fields.
use k9_chatnet.Common.{◌≡◌, refl, true, List, [], ◌∷◌, ◌++◌, none, some, arith, codes, drop}
use k9_chatnet.Database.{
  File, write_file_version, get_file_version, fwrite, write_int16, write_int32, write_ptr,
  write_string,
}
use k9_chatnet.Database.Encoding.{
  Field, int16, int32, ptr, string, fields_bytes, write_field, write_fields,
}
use k9_chatnet.Database.RoundTrip.{
  kinds, values, read_fields, read_fields-write_fields, get_file_version-write_file_version,
}
use k9_chatnet.Database.Truncated.{read_fields-truncated}

abbrev fields : List Field
fields = int16 700 ∷ int32 70000 ∷ ptr true ∷ string (some (codes "nick")) ∷ []

abbrev empty : File
empty = record { written = []; room = 100 }

abbrev full : File
full = record { written = fields_bytes fields; room = 86 }

read_fields-write_fields_example :
    read_fields (kinds fields) (drop 0 (full.written ++ 1 ∷ [])) ≡ some (values fields, 1 ∷ [])
unfolding write_fields write_field write_int16 write_int32 write_ptr write_string fwrite
read_fields-write_fields_example =
    read_fields-write_fields fields empty full (1 ∷ []) (omega arith, (omega arith, (tt, (tt, tt))))
      refl

get_file_version-write_file_version_example : get_file_version ((0 ∷ 0 ∷ 0 ∷ 7 ∷ []) ++ 5 ∷ []) ≡ 7
unfolding write_file_version write_int32
get_file_version-write_file_version_example =
    get_file_version-write_file_version 7 empty (record { written = 0 ∷ 0 ∷ 0 ∷ 7 ∷ []; room = 96 })
      (5 ∷ []) (omega arith) refl refl

read_fields-truncated_example :
    read_fields (kinds (string (some (codes "ab")) ∷ [])) (0 ∷ 3 ∷ b'a' ∷ []) ≡ none
read_fields-truncated_example =
    read_fields-truncated (string (some (codes "ab")) ∷ []) (0 ∷ 3 ∷ b'a' ∷ []) b'b' (0 ∷ [])
      (tt, tt) refl
