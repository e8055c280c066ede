-- ===== src/Tests/Process.antt =====
-- process.c: lines from the server that are handled.
use k9_chatnet.Common.{
  ℕ, ◌≡◌, refl, List, [], ◌∷◌, ◌++◌, Bytes, some, none, arith, codes, if◌then◌else◌, ◌==◌, take,
}
use k9_chatnet.Text.Case.{same_text}
use k9_chatnet.Text.Clean.{words, joined}
use k9_chatnet.Dispatch.{Message, MessageTable, add_message, find_message}
use k9_chatnet.Process.Handle.{State, Handlers, process}
use k9_chatnet.Process.Handle.Words.{HasNoTab, line_of, args_of, handled, process-words}
use k9_chatnet.Process.Handle.Chain.{behind, process-add_message}

abbrev core : Message
core = record { name = codes "PING"; func = 1; mod_name = none }

abbrev front : Message
front = record { name = codes "ping"; func = 2; mod_name = some (codes "hs") }

abbrev table : MessageTable
table i = record { name = codes "PING"; first = core; rest = [] } ∷ []

-- The handlers write down what they get; the second returns MOD_STOP.
abbrev log : Handlers (List (ℕ × Bytes × List Bytes))
log f source av st =
    (record st { world = st.world ++ (f, source, av) ∷ [] }, if f == 2 then 1 else 0)

abbrev idle : State (List (ℕ × Bytes × List Bytes))
idle = record { world = []; mod_current_buffer = none }

abbrev line : Bytes
line = codes "  :srv  PING a  :to  you"

line-HasNoTab : HasNoTab line
line-HasNoTab = ground arith

parsed :
    line_of (words [] (take 511 line))
    ≡ some (codes "srv", codes "PING", codes "a" ∷ codes "to you" ∷ [])
unfolding line_of args_of words joined
parsed = refl

process-words_example :
    process log table line idle ≡ some (handled log table idle (line_of (words [] (take 511 line))))
process-words_example = process-words log table idle line line-HasNoTab

process-add_message_example : process log (add_message same_text table front 1).1 line idle ≡ (
    if same_text (codes "PING") (codes "ping")
    then some (
        behind log
          (codes "srv")
          (codes "a" ∷ codes "to you" ∷ [])
          (find_message table (codes "PING"))
          (log 2
            (codes "srv")
            (codes "a" ∷ codes "to you" ∷ [])
            (record idle { mod_current_buffer = some (codes "to you") })))
    else process log table line idle)
process-add_message_example =
    process-add_message log same_text (λ s t. refl) table front idle line (codes "srv")
      (codes "PING") (codes "a" ∷ codes "to you" ∷ []) line-HasNoTab parsed refl (omega arith)
      (omega arith) (λ i. (omega arith, tt))
