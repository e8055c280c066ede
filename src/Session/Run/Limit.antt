-- ===== src/Session/Run/Limit.antt =====
-- sessions.c: the limit holds after any history of clients that connect and quit.
use k9_chatnet.Common.{
  ℕ, ◌≤◌, ◌<◌, ◌≡◌, refl, inl, inr, List, [], ◌∷◌, Bytes, arith, IsText, Bool-cases, All,
}
use k9_chatnet.Text.Case.{same_text, same_text_iff, lower}
use k9_chatnet.Text.Wild.Fold.{match_wild_nocase-lower}
use k9_chatnet.Session.Types.{Exception, Config, State}
use k9_chatnet.Session.Exceptions.{find_host_exception}
use k9_chatnet.Session.Table.Invariant.{IsValid}
use k9_chatnet.Session.Table.Flat.{sessions, find-cong}
use k9_chatnet.Session.Table.Counts.{clients}
use k9_chatnet.Session.Table.Clients.{
  clients-add_session, clients-del_session, add_session-refuses_iff,
}
use k9_chatnet.Session.Table.{session_limit, add_client, drop_client, add_session, del_session}
use k9_chatnet.Session.Run.{Event, connect, quit, host_of, Network, step, run, Tracks, step-Tracks}

find_host_exception-lower :
    (es : List Exception) (s t : Bytes)
    → lower s ≡ lower t
    → find_host_exception es s ≡ find_host_exception es t
unfolding find_host_exception
find_host_exception-lower [] s t e = refl
find_host_exception-lower (x ∷ es) s t e =
    ground (arith, find_host_exception-lower es s t e, match_wild_nocase-lower x.mask s t e)

-- The names of one host have one limit.
session_limit-lower :
    (c : Config) (es : List Exception) (s t : Bytes)
    → lower s ≡ lower t
    → session_limit c es s ≡ session_limit c es t
unfolding session_limit
session_limit-lower c es s t e = rw (find_host_exception-lower es s t e, session_limit)

add_session-exceptions :
    (c : Config) (now : ℕ) (nick host : Bytes) (st : State)
    → (add_session c now nick host st).state.exceptions ≡ st.exceptions
unfolding add_session add_client
add_session-exceptions c now nick host st = ground arith

del_session-exceptions :
    (host : Bytes) (st : State) → (del_session host st).0.exceptions ≡ st.exceptions
unfolding del_session drop_client
del_session-exceptions host st = ground arith

-- No host with a limit has more clients than the limit.
pub record WithinLimit (c : Config) (st : State) : Type 0 where
  pub within :
      (k : Bytes)
      → IsText k
      → 0 < session_limit c st.exceptions k
      → clients k st.sessionlist ≤ session_limit c st.exceptions k

add_session-within :
    (c : Config) (now : ℕ) (nick host k : Bytes) (st : State)
    → IsValid st
    → IsText host
    → IsText k
    → 0 < session_limit c st.exceptions k
    → clients k st.sessionlist ≤ session_limit c st.exceptions k
    → clients k (add_session c now nick host st).state.sessionlist ≤ session_limit c st.exceptions k
unfolding clients
add_session-within c now nick host k st v th tk pos h = elim (Bool-cases (same_text k host)) [
  | inl same ↦ ground (
    arith,
    clients-add_session c now nick host k st v th tk,
    add_session-refuses_iff c now nick host st v th,
    session_limit-lower c st.exceptions k host ((same_text_iff k host tk th).0 same),
    find-cong k host (sessions st.sessionlist) tk th v.texts same,
  )
  | inr other ↦ ground (arith, clients-add_session c now nick host k st v th tk)
]

step-WithinLimit :
    (c : Config) (n : Network) (e : Event)
    → IsText (host_of e)
    → IsValid n.state
    → WithinLimit c n.state
    → WithinLimit c (step c n e).state
unfolding step
step-WithinLimit c n (connect now nick host) th v w = record {
  within = λ k tk.
      rw (add_session-exceptions c now nick host n.state)
        (λ pos. add_session-within c now nick host k n.state v th tk pos (w.within k tk pos));
}
step-WithinLimit c n (quit host) th v w = record {
  within = λ k tk.
      rw (del_session-exceptions host n.state)
        (λ pos. ground (arith, clients-del_session host k n.state v th tk, w.within k tk pos));
}

-- From a state in which no host has more clients than its limit, no history of clients that connect
-- and quit leads to one in which some host has, as long as the configuration and the exceptions stay.
pub run-WithinLimit :
    (c : Config) (n : Network) (es : List Event)
    → All (λ e. IsText (host_of e)) es
    → Tracks n
    → WithinLimit c n.state
    → WithinLimit c (run c n es).state
unfolding run
run-WithinLimit c n [] h v w = w
run-WithinLimit c n (e ∷ es) h v w =
    run-WithinLimit c (step c n e) es h.1 (step-Tracks c n e h.0 v)
      (step-WithinLimit c n e h.0 v.valid w)
