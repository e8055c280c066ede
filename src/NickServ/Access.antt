-- ===== src/NickServ/Access.antt =====
-- nickserv.c `is_on_access`: is a user's address on the access list of a nick. A registration puts
-- the mask of `create_mask` there.
use k9_chatnet.Common.{
  ◌≡◌, refl, inl, inr, Bool, true, false, ◌||◌, List, [], ◌∷◌, ◌++◌, Bytes, Option, none, some,
  if◌then◌else◌, Bool-cases,
}
use k9_chatnet.Text.Wild.{match_wild_nocase}
use k9_chatnet.User.{User}
use k9_chatnet.User.Masks.{get_host, create_mask}
use k9_chatnet.User.Masks.Match.{IsAddress, create_mask-address}

abbrev pub address : User → Bytes → Bytes
address u host = u.username ++ b'@' ∷ host

unfoldable pub on_mask : User → Bytes → Bool
on_mask u mask =
    match_wild_nocase mask (address u u.host)
    || elim u.vhost [ none ↦ false | some vhost ↦ match_wild_nocase mask (address u vhost) ]

unfoldable pub is_on_access : User → List Bytes → Bool
is_on_access u [] = false
is_on_access u (mask ∷ access) =
    let later = is_on_access u access in if on_mask u mask then true else later

on_mask-address :
    (hidden : Bool) (u : User) (mask : Bytes)
    → match_wild_nocase mask (address u (get_host hidden u)) ≡ true
    → on_mask u mask ≡ true
unfolding on_mask
on_mask-address hidden u mask h = go hidden u.vhost h
  where
    go :
        (b : Bool) (o : Option Bytes)
        → match_wild_nocase mask (
            address u (
              if b
              then elim o as (λ (_ : Option Bytes). Bytes) [ none ↦ u.host | some vhost ↦ vhost ]
              else u.host))
          ≡ true
        → (match_wild_nocase mask (address u u.host) || elim o as (λ (_ : Option Bytes). Bool) [
          | none ↦ false
          | some vhost ↦ match_wild_nocase mask (address u vhost)
        ])
          ≡ true
    go false o e = rw e refl
    go true none e = rw e refl
    go true (some v) e = elim (Bool-cases (match_wild_nocase mask (address u u.host))) [
      | inl hit ↦ rw hit refl
      | inr miss ↦ rw miss e
    ]

-- A user whose mask was put on the access list of a nick is on it, whatever else the list holds, and
-- whether the mask was made of his host or his virtual host: for a user whose shown ident (GetIdent) is his user
-- name when it is made, and an address without `*`, `?`, `!` and
-- `@`, with a user name that is not longer than USERMAX when it begins with `~`.
pub is_on_access-create_mask :
    (hidden : Bool) (u : User) (front back : List Bytes)
    → IsAddress hidden u
    → is_on_access u (front ++ create_mask hidden u ∷ back) ≡ true
unfolding is_on_access
is_on_access-create_mask hidden u [] back h =
    rw (on_mask-address hidden u (create_mask hidden u) (create_mask-address hidden u h)) refl
is_on_access-create_mask hidden u (mask ∷ front) back h = elim (Bool-cases (on_mask u mask)) [
  | inl hit ↦ rw hit refl
  | inr miss ↦ rw miss (is_on_access-create_mask hidden u front back h)
]
