-- ===== src/Tests/Exceptions.antt =====
-- sessions.c: the commands on a list of three exceptions.
use k9_chatnet.Common.{
  ℕ, ◌-◌, ◌≡◌, refl, true, false, List, [], ◌∷◌, Bytes, none, some, arith, codes, length,
}
use k9_chatnet.Common.Int.{pos}
use k9_chatnet.Text.Number.Lists.{Item, range, list_text, all_numbers}
use k9_chatnet.Text.Case.{stricmp, tolower}
use k9_chatnet.Text.Number.Digits.{value_from}
use k9_chatnet.Session.Types.{Exception, Config}
use k9_chatnet.Session.Exceptions.{expire_exceptions}
use k9_chatnet.Session.Exceptions.Expiry.{live, announced, expire_exceptions-live}
use k9_chatnet.Session.Commands.{Moved, move, mask_at, renumber, delete_positions}
use k9_chatnet.Session.Commands.Moving.{IsMoved, Numbered, move-IsMoved}
use k9_chatnet.Session.Commands.Reported.{move-reported_down}
use k9_chatnet.Session.Commands.Positions.{kept, delete_positions-kept}
use k9_chatnet.Session.Commands.Unique.{UniqueMasks}
use k9_chatnet.Session.Commands.{move_within}
use k9_chatnet.Session.Commands.{shift}

abbrev entry : Bytes → ℕ → ℕ → Exception
entry mask expires num = record {
  mask = mask;
  limit = 5;
  who = codes "oper";
  reason = codes "school";
  time = 10;
  expires = expires;
  num = num;
}

abbrev first_entry : Exception
first_entry = entry (codes "*.a.net") 0 0

abbrev second_entry : Exception
second_entry = entry (codes "*.b.net") 50 1

abbrev third_entry : Exception
third_entry = entry (codes "*.c.net") 900 2

abbrev entries : List Exception
entries = first_entry ∷ second_entry ∷ third_entry ∷ []

abbrev announcing : Config
announcing = record {
  def_session_limit = 2;
  defcon_session_limit = 1;
  reduce_session = false;
  max_session_kill = 3;
  session_auto_kill_expiry = 1800;
  session_limit_exceeded = none;
  session_limit_details_loc = none;
  wall_exception_expire = true;
}

expire_exceptions-live_example :
    expire_exceptions announcing 100 entries ≡ (live 100 entries, announced announcing 100 entries)
expire_exceptions-live_example = expire_exceptions-live announcing 100 entries

-- The second exception has expired at time 100.
second_expires : (expire_exceptions announcing 100 entries).0 ≡ first_entry ∷ third_entry ∷ []
unfolding expire_exceptions
second_expires = refl

move-IsMoved_example :
    (m : Moved) × (move (pos 0) (pos 2) entries ≡ some m)
    × IsMoved 0 2 entries m.exceptions
    × Numbered 0 m.exceptions
move-IsMoved_example = move-IsMoved 0 2 entries (omega arith) (omega arith) (omega arith)

abbrev moved_up : Moved
moved_up = record {
  exceptions =
      record second_entry { num = 0 }
      ∷ record third_entry { num = 1 }
      ∷ record first_entry { num = 2 }
      ∷ [];
  reported = codes "*.b.net";
}

abbrev moved_down : Moved
moved_down = record {
  exceptions =
      record third_entry { num = 0 }
      ∷ record first_entry { num = 1 }
      ∷ record second_entry { num = 2 }
      ∷ [];
  reported = codes "*.b.net";
}

move-reported_down_example : moved_down.reported ≡ mask_at 1 entries
unfolding move move_within shift renumber
move-reported_down_example =
    move-reported_down 1 0 entries moved_down (omega arith) (omega arith) refl

abbrev two_and_three : Item
two_and_three = range b'2' [] b'3' []

delete_positions-kept_example :
    delete_positions (list_text two_and_three []) entries
    ≡ some (
      renumber 0 (kept (all_numbers two_and_three []) entries),
      pos (length entries - length (kept (all_numbers two_and_three []) entries)),
      length (all_numbers two_and_three []),
    )
unfolding value_from
delete_positions-kept_example =
    delete_positions-kept entries two_and_three [] (refl, (refl, (refl, tt)))
      (((refl, tt), omega arith, (refl, tt), omega arith), tt) (omega arith)

entries-UniqueMasks : UniqueMasks entries
unfolding stricmp tolower
entries-UniqueMasks = ((refl, (refl, tt)), ((refl, tt), (tt, tt)))
