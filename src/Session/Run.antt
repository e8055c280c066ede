-- ===== src/Session/Run.antt =====
-- sessions.c: clients that connect and quit, one `add_session` or `del_session` for each, against the
-- list of the hosts that are connected.
pub mod Limit
pub mod Start
use k9_chatnet.Common.{
  ℕ, suc, ◌-◌, ◌≡◌, refl, ◌∙◌, Bool, true, false, List, [], ◌∷◌, Bytes, arith, IsText,
  if◌then◌else◌, All,
}
use k9_chatnet.Text.Case.{same_text}
use k9_chatnet.Session.Types.{Config, State}
use k9_chatnet.Session.Table.Flat.{same_text_sym, same_text_cong}
use k9_chatnet.Session.Table.Invariant.{IsValid, add_session-IsValid, del_session-IsValid}
use k9_chatnet.Session.Table.Counts.{clients}
use k9_chatnet.Session.Table.Clients.{clients-add_session, clients-del_session}
use k9_chatnet.Session.Table.{add_session, del_session}

-- A client with a nick connects from a host at a time; a client of a host quits.
pub data Event : Type 0 where
  connect : ℕ → Bytes → Bytes → Event
  quit : Bytes → Event

abbrev pub host_of : Event → Bytes
host_of (connect now nick host) = host
host_of (quit host) = host

-- The services' state and, beside it, the hosts of the clients that are on the network.
pub record Network : Type 0 where
  pub state : State
  pub online : List Bytes

unfoldable pub occurrences : Bytes → List Bytes → ℕ
occurrences k [] = 0
occurrences k (h ∷ l) = if same_text k h then suc (occurrences k l) else occurrences k l

pub remove_host : Bytes → List Bytes → List Bytes
remove_host k [] = []
remove_host k (h ∷ l) = if same_text k h then l else h ∷ remove_host k l

unfoldable pub step : Config → Network → Event → Network
step c n (connect now nick host) =
    let o = add_session c now nick host n.state in
    record { state = o.state; online = if o.added then host ∷ n.online else n.online }
step c n (quit host) = record {
  state = (del_session host n.state).0;
  online = remove_host host n.online;
}

unfoldable pub run : Config → Network → List Event → Network
run c n [] = n
run c n (e ∷ es) = run c (step c n e) es

occurrences-remove_host :
    (k host : Bytes) (l : List Bytes)
    → IsText k
    → IsText host
    → All IsText l
    → occurrences k (remove_host host l)
      ≡ (if same_text k host then occurrences k l - 1 else occurrences k l)
unfolding occurrences remove_host
occurrences-remove_host k host [] tk th tl = ground arith
occurrences-remove_host k host (h ∷ l) tk th tl = ground (
  arith,
  occurrences-remove_host k host l tk th tl.1,
  same_text_cong host h k th tl.0 tk,
  same_text_sym host k,
  same_text_sym h k,
  same_text_cong k host h tk th tl.0,
)

-- The invariant of the table, and every count is the number of clients online.
pub record Tracks (n : Network) : Type 0 where
  pub valid : IsValid n.state
  pub texts : All IsText n.online
  pub counts : (k : Bytes) → IsText k → clients k n.state.sessionlist ≡ occurrences k n.online

remove_host-texts : (k : Bytes) (l : List Bytes) → All IsText l → All IsText (remove_host k l)
unfolding remove_host
remove_host-texts k [] h = tt
remove_host-texts k (x ∷ l) h = ground (arith, remove_host-texts k l h.1)

if_texts :
    (h : Bytes) (l : List Bytes) (b : Bool)
    → IsText h
    → All IsText l
    → All IsText (if b then h ∷ l else l)
if_texts h l true th tl = (th, tl)
if_texts h l false th tl = tl

pub step-Tracks :
    (c : Config) (n : Network) (e : Event) → IsText (host_of e) → Tracks n → Tracks (step c n e)
unfolding step
step-Tracks c n (connect now nick host) th v = record {
  valid = add_session-IsValid c now nick host n.state th v.valid;
  texts = if_texts host n.online (add_session c now nick host n.state).added th v.texts;
  counts = λ k tk.
      clients-add_session c now nick host k n.state v.valid th tk
      ∙ ground (arith, v.counts k tk, occurrences-online k);
}
  where
    occurrences-online :
        (k : Bytes)
        → occurrences k (host ∷ n.online)
          ≡ (if same_text k host then suc (occurrences k n.online) else occurrences k n.online)
    occurrences-online k = unfold occurrences in refl
step-Tracks c n (quit host) th v = record {
  valid = del_session-IsValid host n.state v.valid;
  texts = remove_host-texts host n.online v.texts;
  counts = λ k tk.
      clients-del_session host k n.state v.valid th tk
      ∙ ground (arith, occurrences-remove_host k host n.online tk th v.texts, v.counts k tk);
}

-- After any history of clients that connect and quit, the count of every host is the number of its
-- clients online, and the table keeps its invariant.
pub run-Tracks :
    (c : Config) (n : Network) (es : List Event)
    → All (λ e. IsText (host_of e)) es
    → Tracks n
    → Tracks (run c n es)
unfolding run
run-Tracks c n [] h v = v
run-Tracks c n (e ∷ es) h v = run-Tracks c (step c n e) es h.1 (step-Tracks c n e h.0 v)
