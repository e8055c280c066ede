-- ===== src/User/Table.antt =====
-- users.c: the table of the users that are online, by nick. A pointer to a user is a number. What the
-- functions keep of NickServ, and what they log, is left out.
pub mod Hashed
pub mod Order
pub mod Lists
pub mod Iterate
use k9_chatnet.Common.{
  ℕ, suc, ◌+◌, ◌-◌, ◌*◌, ◌%◌, Bool, true, false, List, [], ◌∷◌, Bytes, Option, none, some, peek,
  take, ◌==◌, ltb, if◌then◌else◌,
}
use k9_chatnet.Text.Case.{same_text}

-- The nicks of the users, the lists of `userlist`, the counts, and the pointer that the next allocation
-- returns.
pub record Users : Type 0 where
  pub nick : ℕ → Bytes
  pub userlist : ℕ → List ℕ
  pub usercnt : ℕ
  pub maxusercnt : ℕ
  pub next : ℕ

abbrev pub put : {A : Type 0} → (ℕ → A) → ℕ → A → ℕ → A
put f i a k = if k == i then a else f k

abbrev pub rest_of : Bytes → Bytes
rest_of [] = []
rest_of (c ∷ s) = s

-- `HASH`: the halves have no bit in common. Behind the NUL of an empty nick stands another.
unfoldable pub hash : Bytes → ℕ
hash nick = peek nick % 32 * 32 + peek (rest_of nick) % 32

-- NICKMAX is 32.
abbrev pub strscpy : Bytes → Bytes
strscpy nick = take 31 nick

unfoldable pub new_user : Bytes → Users → Users
new_user nick us =
    let short = strscpy nick in
    let count = us.usercnt + 1 in
    record {
      nick = put us.nick us.next short;
      userlist = put us.userlist (hash short) (us.next ∷ us.userlist (hash short));
      usercnt = count;
      maxusercnt = if ltb us.maxusercnt count then count else us.maxusercnt;
      next = us.next + 1;
    }

-- A list without a user, whose links are in the user and who is in it at most once.
unfoldable pub unlinked : ℕ → List ℕ → List ℕ
unlinked user [] = []
unlinked user (v ∷ l) = if v == user then unlinked user l else v ∷ unlinked user l

unfoldable pub unlink_user : ℕ → Users → Users
unlink_user user us =
    let i = hash (us.nick user) in
    record us { userlist = put us.userlist i (unlinked user (us.userlist i)) }

unfoldable pub change_user_nick : ℕ → Bytes → Users → Users
change_user_nick user nick us =
    let out = unlink_user user us in
    let short = strscpy nick in
    record out {
      nick = put out.nick user short;
      userlist = put out.userlist (hash short) (user ∷ out.userlist (hash short));
    }

-- `delete_user`, without what it frees.
unfoldable pub delete_user : ℕ → Users → Users
delete_user user us = let out = unlink_user user us in record out { usercnt = out.usercnt - 1 }

-- The loop of `finduser`.
unfoldable pub search_user : (ℕ → Bytes) → Bytes → List ℕ → Option ℕ
search_user nick wanted [] = none
search_user nick wanted (v ∷ l) =
    if same_text (nick v) wanted then some v else search_user nick wanted l

unfoldable pub finduser : Users → Bytes → Option ℕ
finduser us nick = search_user us.nick nick (us.userlist (hash nick))
