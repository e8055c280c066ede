-- ===== src/Tests/Users.antt =====
-- users.c: users who come, change their nicks and leave.
use k9_chatnet.Common.{ℕ, ◌≡◌, refl, List, [], ◌∷◌, arith, codes, length, ◌==◌, if◌then◌else◌}
use k9_chatnet.User.Table.Iterate.{Iteration, users_from, visited, firstuser, visited-users_from}
use k9_chatnet.User.Table.{
  Users, new_user, change_user_nick, delete_user, unlinked, search_user, finduser,
}
use k9_chatnet.User.Table.Lists.{is_listed}
use k9_chatnet.User.Table.Order.{
  no_users, Reached, start, comes, changes, goes, finduser-search_user,
}
use k9_chatnet.Common.{ℕ}
use k9_chatnet.Common.{List}

abbrev online : Users
online =
    delete_user 1
      (change_user_nick 0 (codes "Al") (new_user (codes "bo") (new_user (codes "ed") no_users)))

online-Reached : Reached online (unlinked 1 (0 ∷ unlinked 0 (1 ∷ 0 ∷ [])))
unfolding is_listed unlinked new_user
online-Reached = goes 1 refl (
    changes 0 (codes "Al") (omega arith) refl
      (comes (codes "bo") (omega arith) (comes (codes "ed") (omega arith) start)))

finduser-search_user_example :
    finduser online (codes "AL")
    ≡ search_user online.nick (codes "AL") (unlinked 1 (0 ∷ unlinked 0 (1 ∷ 0 ∷ [])))
finduser-search_user_example =
    finduser-search_user online (unlinked 1 (0 ∷ unlinked 0 (1 ∷ 0 ∷ []))) (codes "AL")
      online-Reached (omega arith)

abbrev two_lists : ℕ → List ℕ
two_lists i = if i == 3 then 7 ∷ 8 ∷ [] else if i == 1000 then 9 ∷ [] else []

abbrev stopped : Iteration
stopped = record { current = 8 ∷ []; next_index = 4 }

-- A loop behind one that was left at the user 8.
visited-users_from_example :
    visited two_lists (length (8 ∷ users_from two_lists 0 1024)) (firstuser two_lists stopped)
    ≡ 8 ∷ users_from two_lists 0 1024
visited-users_from_example =
    visited-users_from two_lists (length (8 ∷ users_from two_lists 0 1024)) stopped (omega arith)
