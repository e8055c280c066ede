-- ===== src/Channel/Messages.antt =====
-- channels.c `do_join`, `do_part`, `do_kick`: the messages on lists of names with commas between them,
-- from and for users that are known. `check_kick` of ChanServ, `finduser`, and the search for a bot are
-- arguments: each is a test or a search that the function asks.
use k9_chatnet.Common.{
  ℕ, ◌≡◌, sym, ◌∙◌, ◌↔◌, inl, inr, Bool, false, List, [], ◌∷◌, ◌++◌, Bytes, Option, none, some,
  peek, ◌==◌, if◌then◌else◌, Bool-cases,
}
use k9_chatnet.Channel.{Net, join_user_update, leave, leave_all, is_on_chan}
use k9_chatnet.Channel.Counts.{times_on, is_on_list_iff}
use k9_chatnet.Channel.Linked.{
  IsLinked, join_user_update-IsLinked, leave-IsLinked, leave_all-IsLinked,
}

-- The items of `while (*(s = t))`: a comma at the end ends the last item.
unfoldable pub items_from : Bytes → Bytes → List Bytes
items_from item [] = item ∷ []
items_from item (c ∷ []) = if c == b',' then item ∷ [] else (item ++ c ∷ []) ∷ []
items_from item (c ∷ d ∷ s) =
    if c == b',' then item ∷ items_from [] (d ∷ s) else items_from (item ++ c ∷ []) (d ∷ s)

abbrev pub items : Bytes → List Bytes
items [] = []
items (c ∷ s) = items_from [] (c ∷ s)

-- A step for every item, in order.
abbrev pub for_all : (Bytes → Net → Net) → List Bytes → Net → Net
for_all step [] net = net
for_all step (s ∷ ss) net = for_all step ss (step s net)

abbrev pub join_one : (Net → Bytes → Bool) → ℕ → Bytes → Net → Net
join_one check_kick user s net =
    if peek s == b'0'
    then leave_all user net
    else if check_kick net s
    then net
    else join_user_update user s net

unfoldable pub do_join : (Net → Bytes → Bool) → ℕ → Bytes → Net → Net
do_join check_kick user names net = for_all (join_one check_kick user) (items names) net

unfoldable pub do_part : ℕ → Bytes → Net → Net
do_part user names net = for_all (leave user) (items names) net

abbrev pub kick_found : Bytes → Net → Option ℕ → Net
kick_found chan net none = net
kick_found chan net (some user) = leave user chan net

-- `is_bot` holds of the nick of a bot, when the channel is registered: the bot joins again.
abbrev pub kick_one : (Bytes → Bool) → (Bytes → Option ℕ) → Bytes → Bytes → Net → Net
kick_one is_bot finduser chan s net = if is_bot s then net else kick_found chan net (finduser s)

unfoldable pub do_kick : (Bytes → Bool) → (Bytes → Option ℕ) → Bytes → Bytes → Net → Net
do_kick is_bot finduser chan nicks net = for_all (kick_one is_bot finduser chan) (items nicks) net

-- What changes the lists: a message of a user, or a user who leaves the network.
pub data Event : Type 0 where
  join : (Net → Bytes → Bool) → ℕ → Bytes → Event
  part : ℕ → Bytes → Event
  kick : (Bytes → Bool) → (Bytes → Option ℕ) → Bytes → Bytes → Event
  quit : ℕ → Event

pub handle : Event → Net → Net
handle (join check_kick user names) net = do_join check_kick user names net
handle (part user names) net = do_part user names net
handle (kick is_bot finduser chan nicks) net = do_kick is_bot finduser chan nicks net
handle (quit user) net = leave_all user net

pub handle_all : List Event → Net → Net
handle_all [] net = net
handle_all (e ∷ es) net = handle_all es (handle e net)

for_all-IsLinked :
    (step : Bytes → Net → Net)
    → ((s : Bytes) (net : Net) → IsLinked net → IsLinked (step s net))
    → (ss : List Bytes) (net : Net) → IsLinked net
    → IsLinked (for_all step ss net)
for_all-IsLinked step keeps [] net h = h
for_all-IsLinked step keeps (s ∷ ss) net h =
    for_all-IsLinked step keeps ss (step s net) (keeps s net h)

join_one-IsLinked :
    (check_kick : Net → Bytes → Bool) (user : ℕ) (s : Bytes) (net : Net)
    → IsLinked net
    → IsLinked (join_one check_kick user s net)
join_one-IsLinked check_kick user s net h = elim (Bool-cases (peek s == b'0')) [
  | inl all ↦ rw all (leave_all-IsLinked user net h)
  | inr name ↦ elim (Bool-cases (check_kick net s)) [
    | inl kicked ↦ rw (name, kicked) h
    | inr stays ↦ rw (name, stays) (join_user_update-IsLinked user s net h)
  ]
]

kick_one-IsLinked :
    (is_bot : Bytes → Bool) (finduser : Bytes → Option ℕ) (chan s : Bytes) (net : Net)
    → IsLinked net
    → IsLinked (kick_one is_bot finduser chan s net)
kick_one-IsLinked is_bot finduser chan s net h = elim (Bool-cases (is_bot s)) [
  | inl bot ↦ rw bot h
  | inr person ↦ rw person (go (finduser s))
]
  where
    go : (o : Option ℕ) → IsLinked (kick_found chan net o)
    go none = h
    go (some user) = leave-IsLinked user chan net h

handle-IsLinked : (e : Event) (net : Net) → IsLinked net → IsLinked (handle e net)
unfolding handle do_join do_part do_kick
handle-IsLinked (join check_kick user names) net h =
    for_all-IsLinked (join_one check_kick user) (join_one-IsLinked check_kick user) (items names)
      net h
handle-IsLinked (part user names) net h =
    for_all-IsLinked (leave user) (leave-IsLinked user) (items names) net h
handle-IsLinked (kick is_bot finduser chan nicks) net h =
    for_all-IsLinked (kick_one is_bot finduser chan) (kick_one-IsLinked is_bot finduser chan)
      (items nicks) net h
handle-IsLinked (quit user) net h = leave_all-IsLinked user net h

-- Joins, parts, kicks and departures, in any order, leave every user as often in a channel's list as
-- the channel is in his, and every channel's count the length of its list.
pub handle_all-IsLinked :
    (es : List Event) (net : Net) → IsLinked net → IsLinked (handle_all es net)
unfolding handle_all
handle_all-IsLinked [] net h = h
handle_all-IsLinked (e ∷ es) net h = handle_all-IsLinked es (handle e net) (handle-IsLinked e net h)

-- `is_on_chan`, which looks through the user's list, agrees with a search through the channel's.
pub is_on_chan-times_on :
    (c user : ℕ) (net : Net)
    → IsLinked net
    → (is_on_chan c user net ≡ false) ↔ (times_on user (net.users c) ≡ 0)
unfolding is_on_chan
is_on_chan-times_on c user net h = (
  (λ e. sym (h.both user c) ∙ (is_on_list_iff c (net.chans user)).0 e),
  λ e. (is_on_list_iff c (net.chans user)).1 (h.both user c ∙ e),
)
