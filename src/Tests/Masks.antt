-- ===== src/Tests/Masks.antt =====
-- users.c, chanserv.c and nickserv.c: masks that are made for users.
use k9_chatnet.Common.{◌≤◌, ◌<◌, ◌≡◌, refl, Bool, true, false, [], ◌∷◌, none, some, arith, codes}
use k9_chatnet.User.{User}
use k9_chatnet.User.Masks.{
  get_ident, create_mask, ident_mask, host_mask, from_dot, is_ip, all_digits, before_last_dot,
}
use k9_chatnet.User.Masks.Match.{IsAddress}
use k9_chatnet.NickServ.Access.{is_on_access, is_on_access-create_mask}
use k9_chatnet.ChanServ.Bans.{get_idealban, Bans, get_idealban-match_usermask}

abbrev visitor : User
visitor = record {
  nick = codes "Bob";
  username = codes "~bob";
  host = codes "10.1.2.3";
  vhost = some (codes "a.bob.org");
  vident = none;
}

visitor-IsAddress : (hidden : Bool) → IsAddress hidden visitor
unfolding get_ident
visitor-IsAddress true = (omega arith, omega arith, tt, refl)
visitor-IsAddress false = (omega arith, omega arith, tt, refl)

masks_made :
    (create_mask false visitor ≡ codes "*bob@10.1.2.*")
    × (create_mask true visitor ≡ codes "*bob@*.bob.org")
unfolding create_mask get_ident ident_mask host_mask from_dot is_ip all_digits before_last_dot
masks_made = (refl, refl)

is_on_access-create_mask_example :
    is_on_access visitor (codes "bob@*" ∷ create_mask true visitor ∷ []) ≡ true
is_on_access-create_mask_example =
    is_on_access-create_mask true visitor (codes "bob@*" ∷ []) [] (visitor-IsAddress true)

get_idealban-match_usermask_example :
    (3 < 4 → Bans visitor (get_idealban 3 false visitor 1024))
    × (4 ≤ 3 → get_idealban 3 false visitor 1024 ≡ none)
get_idealban-match_usermask_example =
    get_idealban-match_usermask 3 1024 false visitor (visitor-IsAddress false) (omega arith)
