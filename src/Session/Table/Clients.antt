-- ===== src/Session/Table/Clients.antt =====
-- sessions.c: `add_session` and `del_session` refine a counter of clients for every host.
use k9_chatnet.Common.{
  ℕ, ◌+◌, ◌-◌, ◌≤◌, ◌<◌, ◌≡◌, refl, ◌∙◌, ◌↔◌, inl, inr, true, false, ◌&&◌, Bytes, none, arith,
  IsText, if◌then◌else◌, Bool-cases, Option-cases, ltb, All-middle,
}
use k9_chatnet.Text.Case.{same_text, same_text_refl}
use k9_chatnet.Session.Types.{Config, State}
use k9_chatnet.Session.Table.Flat.{sessions}
use k9_chatnet.Session.Table.Locate.{Located, findsession-some, findsession-none}
use k9_chatnet.Session.Table.Writes.{left, right}
use k9_chatnet.Session.Table.Invariant.{IsValid, split-Sessions}
use k9_chatnet.Session.Table.Counts.{
  clients, clients-Absent, clients-found, clients-store, clients-unlink, clients-link,
}
use k9_chatnet.Session.Table.{
  Place, findsession, is_full, session_limit, add_client, add_session, drop_client, del_session,
}

clients-none :
    (host k : Bytes) (st : State)
    → IsValid st
    → IsText host
    → IsText k
    → findsession st.sessionlist host ≡ none
    → same_text k host ≡ true
    → clients k st.sessionlist ≡ 0
unfolding clients
clients-none host k st v th tk e =
    clients-Absent host k (sessions st.sessionlist) th tk v.texts
      (findsession-none st.sessionlist host e)

module _ {st : State} (v : IsValid st) {host : Bytes} {p : Place}
    (r : Located host st.sessionlist p) (th : IsText host) where
  clients_some : clients host st.sessionlist ≡ p.found.count
  clients_some = ground (arith, clients-found v r th host th, same_text_refl host)

  found_positive : 0 < p.found.count
  found_positive = ((All-middle _ (left r) p.found (right r)).0 (split-Sessions v r).positive).0

  clients-add_client :
      (c : Config) (now : ℕ) (nick k : Bytes)
      → IsText k
      → let o = add_client c now nick host st p in
        clients k o.state.sessionlist ≡ (
          if o.added && same_text k host
          then clients k st.sessionlist + 1
          else clients k st.sessionlist)
  unfolding add_client
  clients-add_client c now nick k tk =
      let s = p.found in
      elim (Bool-cases (is_full (session_limit c st.exceptions host) s.count)) [
        | inl full ↦ rw full (
            clients-store v r th k tk (record s { hits = s.hits + 1 }) refl found_positive
            ∙ ground (arith, clients-found v r th k tk))
        | inr free ↦ rw free (
            clients-store v r th k tk (record s { count = s.count + 1 }) refl (omega arith)
            ∙ ground (arith, clients-found v r th k tk))
      ]

  clients-drop_client :
      (k : Bytes)
      → IsText k
      → clients k (drop_client st p).sessionlist
        ≡ (if same_text k host then clients k st.sessionlist - 1 else clients k st.sessionlist)
  unfolding drop_client
  clients-drop_client k tk =
      let s = p.found in
      elim (Bool-cases (ltb 1 s.count)) [
        | inl several ↦ rw several (
            clients-store v r th k tk (record s { count = s.count - 1 }) refl (ground arith)
            ∙ ground (arith, clients-found v r th k tk))
        | inr last ↦
            rw last (clients-unlink v r th k tk ∙ ground (arith, clients-found v r th k tk))
      ]

-- `add_session` refuses a client exactly when its host has a limit and the host's clients have
-- reached it.
pub add_session-refuses_iff :
    (c : Config) (now : ℕ) (nick host : Bytes) (st : State)
    → IsValid st
    → IsText host
    → ((add_session c now nick host st).added ≡ false) ↔ (
        (0 < session_limit c st.exceptions host)
        × (session_limit c st.exceptions host ≤ clients host st.sessionlist))
unfolding add_session add_client
add_session-refuses_iff c now nick host st v th =
    elim (Option-cases (findsession st.sessionlist host)) [
      | inl e ↦
          rw (e, add_session)
            (ground (arith, clients-none host host st v th th e (same_text_refl host)))
      | inr (p, e) ↦
          let r = findsession-some st.sessionlist host p e in
          rw (e, add_session) (ground (arith, clients_some v r th))
    ]

-- A client that `add_session` adds is counted for its host; a refused one is not, and the count of
-- every other host stays.
pub clients-add_session :
    (c : Config) (now : ℕ) (nick host k : Bytes) (st : State)
    → IsValid st
    → IsText host
    → IsText k
    → let o = add_session c now nick host st in
      clients k o.state.sessionlist ≡ (
        if o.added && same_text k host
        then clients k st.sessionlist + 1
        else clients k st.sessionlist)
unfolding add_session
clients-add_session c now nick host k st v th tk =
    elim (Option-cases (findsession st.sessionlist host)) [
      | inl e ↦
          rw (e, add_session)
            (clients-link k host st v tk th (findsession-none st.sessionlist host e))
      | inr (p, e) ↦
          rw (e, add_session)
            (clients-add_client v (findsession-some st.sessionlist host p e) th c now nick k tk)
    ]

-- `del_session` counts a client of the host less, if there is one, and the count of every other host
-- stays.
pub clients-del_session :
    (host k : Bytes) (st : State)
    → IsValid st
    → IsText host
    → IsText k
    → clients k (del_session host st).0.sessionlist
      ≡ (if same_text k host then clients k st.sessionlist - 1 else clients k st.sessionlist)
unfolding del_session
clients-del_session host k st v th tk = elim (Option-cases (findsession st.sessionlist host)) [
  | inl e ↦ rw (e, del_session) (ground (arith, clients-none host k st v th tk e))
  | inr (p, e) ↦
      rw (e, del_session) (clients-drop_client v (findsession-some st.sessionlist host p e) th k tk)
]
