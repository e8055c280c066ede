-- ===== src/Tests/Timers.antt =====
-- timeout.c: a list of three timeouts, of which two are due and one of these repeats.
use k9_chatnet.Common.{ℕ, ◌≡◌, true, false, List, [], ◌∷◌, ◌++◌, if◌then◌else◌, ◌==◌}
use k9_chatnet.Timeouts.{Timeout, Call, check_timeouts, due, staying, added, check_timeouts-due}

abbrev at : ℕ → ℕ → Timeout
at id time = record { id = id; settime = 0; timeout = time; repeat = false }

abbrev pending : List Timeout
pending = at 1 50 ∷ record { id = 2; settime = 0; timeout = 10; repeat = true } ∷ at 3 20 ∷ []

-- The code of the third adds two.
abbrev adds_two : Timeout → List Call
adds_two e =
    if e.id == 3
    then record { id = 4; delay = 5; repeat = false }
      ∷ record { id = 5; delay = 0; repeat = true }
      ∷ []
    else []

check_timeouts-due_example : check_timeouts adds_two 30 pending ≡ record {
  timeouts = added adds_two 30 [] pending ++ staying adds_two 30 pending;
  ran = due adds_two 30 pending;
}
check_timeouts-due_example = check_timeouts-due adds_two 30 pending
