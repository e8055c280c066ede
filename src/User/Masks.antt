-- ===== src/User/Masks.antt =====
-- users.c `create_mask`: a mask for the addresses of a user.
pub mod Plain
pub mod Match
use k9_chatnet.Common.{
  ℕ, Bool, true, false, ◌&&◌, ◌||◌, not, [], ◌∷◌, ◌++◌, Bytes, Option, none, some, peek, length,
  ◌==◌, ltb, if◌then◌else◌,
}
use k9_chatnet.Text.Number.{is_digit}
use k9_chatnet.User.{User}
use k9_chatnet.User.Table.{rest_of}

-- `GetHost`, in the builds where it is the virtual host while a mode is set.
abbrev pub get_host : Bool → User → Bytes
get_host hidden u = if hidden then elim u.vhost [ none ↦ u.host | some vhost ↦ vhost ] else u.host

-- `GetIdent`, in the builds where it is the virtual ident while the mode is set.
unfoldable pub get_ident : Bool → User → Bytes
get_ident hidden u =
    if hidden then elim u.vident [ none ↦ u.username | some vident ↦ vident ] else u.username

-- The user name without a `~`, behind a `*` unless it may be cut off. USERMAX is 10.
unfoldable pub ident_mask : Bytes → Bytes
ident_mask username =
    let name = if peek username == b'~' then rest_of username else username in
    if ltb (length username) (if peek username == b'~' then 11 else 10) then b'*' ∷ name else name

-- `strchr(s, '.')`
unfoldable pub from_dot : Bytes → Option Bytes
from_dot [] = none
from_dot (c ∷ s) = let later = from_dot s in if c == b'.' then some (c ∷ s) else later

abbrev pub next_dot : Option Bytes → Option Bytes
next_dot none = none
next_dot (some s) = from_dot (rest_of s)

abbrev pub is_some : Option Bytes → Bool
is_some none = false
is_some (some s) = true

-- `strspn(s, "0123456789.") == strlen(s)`
unfoldable pub all_digits : Bytes → Bool
all_digits [] = true
all_digits (c ∷ s) = (is_digit c || c == b'.') && all_digits s

-- Numbers with three dots.
unfoldable pub is_ip : Bytes → Bool
is_ip host =
    let third = next_dot (next_dot (from_dot host)) in
    all_digits host && (is_some third && not (is_some (next_dot third)))

abbrev pub with_head : ℕ → Option Bytes → Option Bytes
with_head c none = if c == b'.' then some [] else none
with_head c (some s) = some (c ∷ s)

-- What stands before the last dot.
unfoldable pub before_last_dot : Bytes → Option Bytes
before_last_dot [] = none
before_last_dot (c ∷ s) = with_head c (before_last_dot s)

abbrev pub subnet : Bytes → Option Bytes → Bytes
subnet host none = host
subnet host (some s) = s ++ b'.' ∷ b'*' ∷ []

abbrev pub domain : Bytes → Option Bytes → Bytes
domain host none = host
domain host (some s) = b'*' ∷ s

unfoldable pub host_mask : Bytes → Bytes
host_mask host =
    if is_ip host
    then subnet host (before_last_dot host)
    else if is_some (next_dot (from_dot host))
    then domain host (from_dot host)
    else host

unfoldable pub create_mask : Bool → User → Bytes
create_mask hidden u = ident_mask (get_ident hidden u) ++ b'@' ∷ host_mask (get_host hidden u)
