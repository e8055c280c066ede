-- ===== src/Session/Table.antt =====
-- sessions.c: `HASH`, `findsession`, `add_session`, `del_session`. The table is the list of its
-- buckets, a bucket the list of its sessions from the head on.
pub mod Flat
pub mod Locate
pub mod Writes
pub mod Invariant
pub mod Counts
pub mod Clients
use k9_chatnet.Common.{
  ℕ, suc, ◌+◌, ◌-◌, ◌*◌, ◌%◌, Bool, true, false, not, ◌&&◌, List, [], ◌∷◌, ◌++◌, Bytes, Option,
  none, some, codes, peek, set, get_or, ltb, leb, ◌==◌, if◌then◌else◌,
}
use k9_chatnet.Text.Case.{same_text}
use k9_chatnet.Session.Types.{
  Session, Exception, Config, State, Effect, notice, kill, add_akill, wallops_akill,
  wallops_no_session,
}
use k9_chatnet.Session.Exceptions.{find_host_exception}

abbrev pub Table : Type 0
Table = List (List Session)

abbrev tail_of : Bytes → Bytes
tail_of [] = []
tail_of (c ∷ s) = s

-- `((host)[0] & 31) << 5 | ((host)[1] & 31)`: the two halves have no bit in common.
unfoldable pub hash : Bytes → ℕ
hash host = peek host % 32 * 32 + peek (tail_of host) % 32

-- A session that a pointer points to: its bucket, and what stands before and behind it there.
pub record Place : Type 0 where
  pub bucket : ℕ
  pub before : List Session
  pub found : Session
  pub after : List Session

-- The inner loop, over one bucket.
unfoldable pub find_in : ℕ → Bytes → List Session → List Session → Option Place
find_in i host before [] = none
find_in i host before (s ∷ l) =
    if same_text host s.host
    then some (record { bucket = i; before = before; found = s; after = l })
    else find_in i host (before ++ s ∷ []) l

-- The outer loop, over the buckets from `i` on.
unfoldable pub find_from : ℕ → Bytes → Table → Option Place
find_from i host [] = none
find_from i host (b ∷ t) =
    let later = find_from (suc i) host t in
    elim (find_in i host [] b) [ none ↦ later | some p ↦ some p ]

unfoldable pub findsession : Table → Bytes → Option Place
unfolding find_in find_from
findsession t host = find_from 0 host t

-- A write through the pointer.
unfoldable pub store : Table → Place → Session → Table
store t p s = set t p.bucket (p.before ++ s ∷ p.after)

-- The links of the neighbours are joined; without one before it, the bucket of the hash gets a new
-- head.
unfoldable pub unlink : Table → Place → Table
unlink t p = elim p.before [
  | [] ↦ set t (hash p.found.host) p.after
  | x ∷ l ↦ set t p.bucket (p.before ++ p.after)
]

-- `*list = session` with `session->next = *list`
unfoldable pub link : Table → Session → Table
link t s = set t (hash s.host) (s ∷ get_or t (hash s.host) [])

-- The limit that holds for a host; 0 is no limit.
unfoldable pub session_limit : Config → List Exception → Bytes → ℕ
session_limit c es host = elim (find_host_exception es host) [
  | some e ↦ e.limit
  | none ↦ if c.reduce_session then c.defcon_session_limit else c.def_session_limit
]

-- `sessionlimit != 0 && session->count >= sessionlimit`
abbrev pub is_full : ℕ → ℕ → Bool
is_full limit count = not (limit == 0) && leb limit count

abbrev notice_of : Bytes → Option Bytes → List Bytes → List Effect
notice_of nick none args = []
notice_of nick (some text) args = notice nick text args ∷ []

-- The messages of a refusal: `hits` is the count after its increment.
unfoldable pub refusal : Config → ℕ → Bytes → Bytes → ℕ → List Effect
refusal c now nick host hits =
    notice_of nick c.session_limit_exceeded (host ∷ [])
    ++ (notice_of nick c.session_limit_details_loc []
        ++ (kill nick
            ∷ (if not (c.max_session_kill == 0) && leb c.max_session_kill hits
                then add_akill (codes "*@" ++ host) (now + c.session_auto_kill_expiry)
                  ∷ wallops_akill (codes "*@" ++ host)
                  ∷ []
                else [])))

-- The new state, whether the client may stay, and what is sent.
pub record Outcome : Type 0 where
  pub state : State
  pub added : Bool
  pub sent : List Effect

-- The branch of `add_session` for a host that has a session.
unfoldable pub add_client : Config → ℕ → Bytes → Bytes → State → Place → Outcome
add_client c now nick host st p =
    let s = p.found in
    if is_full (session_limit c st.exceptions host) s.count
    then record {
      state = record st { sessionlist = store st.sessionlist p (record s { hits = s.hits + 1 }) };
      added = false;
      sent = refusal c now nick host (s.hits + 1);
    }
    else record {
      state = record st { sessionlist = store st.sessionlist p (record s { count = s.count + 1 }) };
      added = true;
      sent = [];
    }

abbrev new_session : Bytes → Session
new_session host = record { host = host; count = 1; hits = 0 }

unfoldable pub add_session : Config → ℕ → Bytes → Bytes → State → Outcome
add_session c now nick host st = elim (findsession st.sessionlist host) [
  | some p ↦ add_client c now nick host st p
  | none ↦ record {
    state = record st {
      sessionlist = link st.sessionlist (new_session host);
      nsessions = st.nsessions + 1;
    };
    added = true;
    sent = [];
  }
]

unfoldable pub drop_client : State → Place → State
drop_client st p =
    let s = p.found in
    if ltb 1 s.count
    then record st { sessionlist = store st.sessionlist p (record s { count = s.count - 1 }) }
    else record st { sessionlist = unlink st.sessionlist p; nsessions = st.nsessions - 1 }

unfoldable pub del_session : Bytes → State → State × List Effect
del_session host st = elim (findsession st.sessionlist host) [
  | some p ↦ (drop_client st p, [])
  | none ↦ (st, wallops_no_session host ∷ [])
]
