-- ===== src/NickServ.antt =====
-- nickserv.c: the requests for nicks that wait for a confirmation. The lists of one hash value are
-- lists of requests from the head on; a pointer into one is what stands from there on.
pub mod Expiry
pub mod Access
pub mod Login
use k9_chatnet.Common.{
  arith, ℕ, zero, suc, ◌+◌, ◌-◌, ◌*◌, ◌%◌, ◌≤◌, ◌<◌, ◌≡◌, refl, sym, ap, ◌∙◌, inl, inr, Bool, true,
  false, ◌&&◌, not, List, [], ◌∷◌, ◌++◌, Bytes, Option, none, some, ltb, leb, if◌then◌else◌,
  Bool-cases, All, peek,
}
use k9_chatnet.Text.Case.{same_text, tolower}
use k9_chatnet.User.Table.{put, rest_of}

pub record NickRequest : Type 0 where
  pub nick : Bytes
  pub requested : ℕ

-- `HASH`: the halves have no bit in common.
unfoldable pub nick_hash : Bytes → ℕ
nick_hash nick = tolower (peek nick) % 32 * 32 + tolower (peek (rest_of nick)) % 32

unfoldable pub insert_requestnick : NickRequest → (ℕ → List NickRequest) → ℕ → List NickRequest
insert_requestnick nr nrlists =
    let index = nick_hash nr.nick in put nrlists index (nr ∷ nrlists index)

unfoldable pub find_request : Bytes → List NickRequest → Option NickRequest
find_request nick [] = none
find_request nick (nr ∷ next) = if same_text nr.nick nick then some nr else find_request nick next

unfoldable pub findrequestnick : Bytes → (ℕ → List NickRequest) → Option NickRequest
findrequestnick nick nrlists = find_request nick (nrlists (nick_hash nick))

-- `nr` is the request, `next` what follows it in its list, which becomes the whole list.
unfoldable pub delnickrequest :
    NickRequest → List NickRequest → (ℕ → List NickRequest) → ℕ → List NickRequest
delnickrequest nr next nrlists = put nrlists (nick_hash nr.nick) next

-- A request expires NSRExpire seconds after it was made, unless NSRExpire is 0.
unfoldable pub is_expired : ℕ → ℕ → NickRequest → Bool
is_expired expire now nr = ltb 0 expire && leb (nr.requested + expire) now

-- The inner loop of `expire_requests`.
unfoldable pub expire_list :
    ℕ → ℕ → List NickRequest → (ℕ → List NickRequest) → ℕ → List NickRequest
expire_list expire now [] nrlists = nrlists
expire_list expire now (nr ∷ next) nrlists =
    expire_list expire now next
      (if is_expired expire now nr then delnickrequest nr next nrlists else nrlists)

-- The loop over the lists, of which `n` are left.
unfoldable pub expire_from : ℕ → ℕ → ℕ → (ℕ → List NickRequest) → ℕ → List NickRequest
expire_from expire now zero nrlists = nrlists
expire_from expire now (suc n) nrlists =
    expire_from expire now n (expire_list expire now (nrlists (1023 - n)) nrlists)

unfoldable pub expire_requests : ℕ → ℕ → (ℕ → List NickRequest) → ℕ → List NickRequest
expire_requests expire now nrlists = expire_from expire now 1024 nrlists
