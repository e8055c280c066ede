-- ===== src/Session/Table/Invariant.antt =====
-- sessions.c: the invariant of the table, kept by `add_session` and `del_session`.
use k9_chatnet.Common.{
  ℕ, ◌+◌, ◌-◌, ◌<◌, ◌≡◌, refl, sym, ◌∙◌, ap, subst, inl, inr, List, [], ◌∷◌, ◌++◌, Bytes, arith,
  IsText, Bool-cases, Option-cases, ltb, set, get_or, length, length-set, All, All-middle,
}
use k9_chatnet.Session.Types.{Session, Config, State}
use k9_chatnet.Session.Table.Flat.{sessions, Absent, AllText, Unique, Unique-middle, length-middle}
use k9_chatnet.Session.Table.Locate.{Located, findsession-some, findsession-none}
use k9_chatnet.Session.Table.Writes.{
  left, right, sessions-left-right, sessions-store, sessions-unlink, unlink-set, bucket_split,
  hash_bound, HashedFrom, HashedFrom-get, HashedFrom-set,
}
use k9_chatnet.Session.Table.{
  Place, hash, store, unlink, link, findsession, is_full, session_limit, add_client, add_session,
  drop_client, del_session, new_session,
}

-- The 1024 buckets; every session in the bucket of its hash; one session for a host; a client for
-- every session; and `nsessions` the number of sessions.
pub record IsValid (st : State) : Type 0 where
  pub sized : length st.sessionlist ≡ 1024
  pub hashed : HashedFrom 0 st.sessionlist
  pub texts : AllText (sessions st.sessionlist)
  pub unique : Unique (sessions st.sessionlist)
  pub positive : All (λ s. 0 < s.count) (sessions st.sessionlist)
  pub counted : st.nsessions ≡ length (sessions st.sessionlist)

-- The fields that speak of the list of sessions, over any list.
pub record Sessions (l : List Session) (n : ℕ) : Type 0 where
  pub texts : AllText l
  pub unique : Unique l
  pub positive : All (λ s. 0 < s.count) l
  pub counted : n ≡ length l

-- A session rewritten under its host.
Sessions-update :
    (xs : List Session) (s s' : Session) (ys : List Session) (n : ℕ)
    → Sessions (xs ++ s ∷ ys) n
    → s'.host ≡ s.host
    → 0 < s'.count
    → Sessions (xs ++ s' ∷ ys) n
Sessions-update xs s s' ys n v e c =
    let (text, texts) = (All-middle _ xs s ys).0 v.texts in
    let (absent, unique) = (Unique-middle xs s ys).0 v.unique in
    let (_, positive) = (All-middle _ xs s ys).0 v.positive in
    record {
      texts = (All-middle _ xs s' ys).1 (subst IsText (sym e) text, texts);
      unique = (Unique-middle xs s' ys).1 (subst (λ h. Absent h (xs ++ ys)) (sym e) absent, unique);
      positive = (All-middle _ xs s' ys).1 (c, positive);
      counted = omega (arith, v.counted, length-middle xs s ys, length-middle xs s' ys);
    }

Sessions-remove :
    (xs : List Session) (s : Session) (ys : List Session) (n : ℕ)
    → Sessions (xs ++ s ∷ ys) n
    → Sessions (xs ++ ys) (n - 1)
Sessions-remove xs s ys n v = record {
  texts = ((All-middle _ xs s ys).0 v.texts).1;
  unique = ((Unique-middle xs s ys).0 v.unique).1;
  positive = ((All-middle _ xs s ys).0 v.positive).1;
  counted = omega (arith, v.counted, length-middle xs s ys);
}

Sessions-insert :
    (xs : List Session) (s : Session) (ys : List Session) (n : ℕ)
    → Sessions (xs ++ ys) n
    → IsText s.host
    → Absent s.host (xs ++ ys)
    → 0 < s.count
    → Sessions (xs ++ s ∷ ys) (n + 1)
Sessions-insert xs s ys n v t a c = record {
  texts = (All-middle _ xs s ys).1 (t, v.texts);
  unique = (Unique-middle xs s ys).1 (a, v.unique);
  positive = (All-middle _ xs s ys).1 (c, v.positive);
  counted = omega (arith, v.counted, length-middle xs s ys);
}

pub sessions_of : {st : State} → IsValid st → Sessions (sessions st.sessionlist) st.nsessions
sessions_of v = record {
  texts = v.texts;
  unique = v.unique;
  positive = v.positive;
  counted = v.counted;
}

pub IsValid-of :
    {st : State}
    → length st.sessionlist ≡ 1024
    → HashedFrom 0 st.sessionlist
    → Sessions (sessions st.sessionlist) st.nsessions
    → IsValid st
IsValid-of n h v = record {
  sized = n;
  hashed = h;
  texts = v.texts;
  unique = v.unique;
  positive = v.positive;
  counted = v.counted;
}

-- What is known of a session that the search has found.
module _ {st : State} (v : IsValid st) {k : Bytes} {p : Place}
    (r : Located k st.sessionlist p) where
  pub bucket-hashed : All (λ s. hash s.host ≡ p.bucket) (p.before ++ p.found ∷ p.after)
  bucket-hashed =
      let e : 0 + p.bucket ≡ p.bucket = omega arith in
      subst (λ n. All (λ s. hash s.host ≡ n) (p.before ++ p.found ∷ p.after)) e
        (HashedFrom-get 0 p.bucket st.sessionlist _ v.hashed r.at)

  pub found-hashed : hash p.found.host ≡ p.bucket
  found-hashed = ((All-middle _ p.before p.found p.after).0 bucket-hashed).0

  pub split-Sessions : Sessions (left r ++ p.found ∷ right r) st.nsessions
  split-Sessions = subst (λ l. Sessions l st.nsessions) (sessions-left-right r) (sessions_of v)

  write-IsValid :
      (b l : List Session) (n : ℕ)
      → All (λ s. hash s.host ≡ p.bucket) b
      → sessions (set st.sessionlist p.bucket b) ≡ l
      → Sessions l n
      → IsValid (record st { sessionlist = set st.sessionlist p.bucket b; nsessions = n })
  write-IsValid b l n h e w =
      let base : p.bucket ≡ 0 + p.bucket = omega arith in
      IsValid-of (length-set st.sessionlist p.bucket b ∙ v.sized)
        (HashedFrom-set 0 p.bucket st.sessionlist b v.hashed
          (subst (λ m. All (λ s. hash s.host ≡ m) b) base h))
        (subst (λ m. Sessions m n) (sym e) w)

  -- A write that keeps the host and a positive count.
  pub store-IsValid :
      (s : Session)
      → s.host ≡ p.found.host
      → 0 < s.count
      → IsValid (record st { sessionlist = store st.sessionlist p s })
  unfolding store
  store-IsValid s e c =
      write-IsValid (p.before ++ s ∷ p.after) (left r ++ s ∷ right r) st.nsessions
        ((All-middle _ p.before s p.after).1
          (ap hash e ∙ found-hashed, ((All-middle _ p.before p.found p.after).0 bucket-hashed).1))
        (sessions-store r s)
        (Sessions-update (left r) p.found s (right r) st.nsessions split-Sessions e c)

  pub unlink-IsValid :
      IsValid (record st { sessionlist = unlink st.sessionlist p; nsessions = st.nsessions - 1 })
  unlink-IsValid = rw (unlink-set st.sessionlist p found-hashed) (
      write-IsValid (p.before ++ p.after) (left r ++ right r) (st.nsessions - 1)
        ((All-middle _ p.before p.found p.after).0 bucket-hashed).1
        (sym (ap sessions (unlink-set st.sessionlist p found-hashed))
          ∙ sessions-unlink r found-hashed)
        (Sessions-remove (left r) p.found (right r) st.nsessions split-Sessions))

add_client-IsValid :
    (c : Config) (now : ℕ) (nick host : Bytes) (st : State) (p : Place)
    → IsValid st
    → Located host st.sessionlist p
    → IsValid (add_client c now nick host st p).state
unfolding add_client
add_client-IsValid c now nick host st p v r =
    let positive = ((All-middle _ (left r) p.found (right r)).0 (split-Sessions v r).positive).0 in
    elim (Bool-cases (is_full (session_limit c st.exceptions host) p.found.count)) [
      | inl full ↦ rw full (store-IsValid v r _ refl positive)
      | inr free ↦ rw free (store-IsValid v r _ refl (omega arith))
    ]

link-IsValid :
    (host : Bytes) (st : State)
    → IsValid st
    → IsText host
    → Absent host (sessions st.sessionlist)
    → IsValid (record st {
      sessionlist = link st.sessionlist (new_session host);
      nsessions = st.nsessions + 1;
    })
unfolding link
link-IsValid host st v t a =
    let bound : hash host < length st.sessionlist = omega (arith, hash_bound host, v.sized) in
    let (xs, ys, at, whole, replaced) = bucket_split st.sessionlist (hash host) bound in
    let b = get_or st.sessionlist (hash host) [] in
    let l = xs ++ (b ++ ys) in
    let base : 0 + hash host ≡ hash host = omega arith in
    IsValid-of (length-set st.sessionlist (hash host) _ ∙ v.sized)
      (HashedFrom-set 0 (hash host) st.sessionlist _ v.hashed
        (sym base, HashedFrom-get 0 (hash host) st.sessionlist b v.hashed at))
      (subst (λ m. Sessions m (st.nsessions + 1)) (sym (replaced (new_session host ∷ b)))
        (Sessions-insert xs (new_session host) (b ++ ys) st.nsessions
          (subst (λ m. Sessions m st.nsessions) whole (sessions_of v)) t
          (subst (Absent host) whole a) (omega arith)))

-- `add_session` keeps the invariant, whether it adds the client or refuses it.
pub add_session-IsValid :
    (c : Config) (now : ℕ) (nick host : Bytes) (st : State)
    → IsText host
    → IsValid st
    → IsValid (add_session c now nick host st).state
unfolding add_session
add_session-IsValid c now nick host st t v = elim (Option-cases (findsession st.sessionlist host)) [
  | inl e ↦ rw (e, add_session) (link-IsValid host st v t (findsession-none st.sessionlist host e))
  | inr (p, e) ↦
      rw (e, add_session)
        (add_client-IsValid c now nick host st p v (findsession-some st.sessionlist host p e))
]

drop_client-IsValid :
    (host : Bytes) (st : State) (p : Place)
    → IsValid st
    → Located host st.sessionlist p
    → IsValid (drop_client st p)
unfolding drop_client
drop_client-IsValid host st p v r = elim (Bool-cases (ltb 1 p.found.count)) [
  | inl several ↦ rw several (store-IsValid v r _ refl (ground arith))
  | inr last ↦ rw last (unlink-IsValid v r)
]

-- `del_session` keeps the invariant.
pub del_session-IsValid : (host : Bytes) (st : State) → IsValid st → IsValid (del_session host st).0
unfolding del_session
del_session-IsValid host st v = elim (Option-cases (findsession st.sessionlist host)) [
  | inl e ↦ rw (e, del_session) v
  | inr (p, e) ↦
      rw (e, del_session)
        (drop_client-IsValid host st p v (findsession-some st.sessionlist host p e))
]
