-- ===== src/Tests/Handlers.antt =====
-- modules.c: messages that a module adds and deletes.
use k9_chatnet.Common.{◌≡◌, refl, [], ◌∷◌, some, none, arith, codes, if◌then◌else◌}
use k9_chatnet.Text.Case.{same_text}
use k9_chatnet.Dispatch.{Message, MessageTable, add_message, find_message}
use k9_chatnet.Dispatch.Chains.{extended, find_message-add_message}

abbrev core : Message
core = record { name = codes "PI"; func = 1; mod_name = none }

abbrev added : Message
added = record { name = codes "pi"; func = 2; mod_name = some (codes "hs") }

abbrev table : MessageTable
table i = record { name = codes "PI"; first = core; rest = [] } ∷ []

find_message-add_message_example :
    find_message (add_message same_text table added 1).1 (codes "Pi") ≡ (
      if same_text (codes "Pi") (codes "pi")
      then extended added 1 (find_message table (codes "Pi"))
      else find_message table (codes "Pi"))
find_message-add_message_example =
    find_message-add_message same_text (λ s t. refl) table added 1 (codes "Pi") (omega arith)
      (omega arith) (omega arith) (λ i. (omega arith, tt))
