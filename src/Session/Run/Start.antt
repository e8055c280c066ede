-- ===== src/Session/Run/Start.antt =====
-- sessions.c: the tables as the program starts, `sessionlist` all NULL and `nsessions` 0.
use k9_chatnet.Common.{
  ℕ, zero, suc, ◌<◌, ◌≡◌, refl, sym, ap, subst, List, [], arith, replicate, length,
  length-replicate, All,
}
use k9_chatnet.Session.Types.{Session, Exception, State, Config}
use k9_chatnet.Session.Table.Flat.{sessions, AllText, Unique}
use k9_chatnet.Session.Table.Writes.{HashedFrom}
use k9_chatnet.Session.Table.Invariant.{IsValid}
use k9_chatnet.Session.Table.Counts.{clients}
use k9_chatnet.Session.Table.Flat.{find}
use k9_chatnet.Session.Run.Limit.{WithinLimit}
use k9_chatnet.Session.Run.{Network, Tracks, occurrences}

-- Static variables are zero at the start; the exceptions come from their file.
pub initial : List Exception → State
initial es = record { sessionlist = replicate 1024 []; nsessions = 0; exceptions = es }

pub nobody : List Exception → Network
unfolding initial
nobody es = record { state = initial es; online = [] }

HashedFrom-replicate : (i n : ℕ) → HashedFrom i (replicate n [])
HashedFrom-replicate i zero = tt
HashedFrom-replicate i (suc n) = (tt, HashedFrom-replicate (suc i) n)

sessions-replicate : (n : ℕ) → sessions (replicate n []) ≡ []
sessions-replicate zero = refl
sessions-replicate (suc n) = sessions-replicate n

module _ (es : List Exception) where
  no_sessions : sessions (initial es).sessionlist ≡ []
  unfolding initial
  no_sessions = sessions-replicate 1024

  pub initial-IsValid : IsValid (initial es)
  unfolding initial
  initial-IsValid = record {
    sized = length-replicate {A = List Session} 1024 [];
    hashed = HashedFrom-replicate 0 1024;
    texts = subst AllText (sym no_sessions) tt;
    unique = subst Unique (sym no_sessions) tt;
    positive = subst (All (λ s. 0 < s.count)) (sym no_sessions) tt;
    counted = sym (ap length no_sessions);
  }

  pub nobody-Tracks : Tracks (nobody es)
  unfolding nobody occurrences clients
  nobody-Tracks = record {
    valid = initial-IsValid;
    texts = tt;
    counts = λ k tk. rw no_sessions (unfold find in refl);
  }

  pub nobody-WithinLimit : (c : Config) → WithinLimit c (nobody es).state
  unfolding nobody clients
  nobody-WithinLimit c = record { within = λ k tk pos. rw no_sessions (unfold find in omega arith) }
