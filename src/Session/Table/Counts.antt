-- ===== src/Session/Table/Counts.antt =====
-- sessions.c: `add_session` and `del_session` as a counter of clients for every host.
use k9_chatnet.Common.{
  ℕ, ◌+◌, ◌<◌, ◌≡◌, sym, ◌∙◌, ap, subst, inl, inr, true, List, [], ◌∷◌, ◌++◌, Bytes, Option, none,
  some, arith, IsText, if◌then◌else◌, Bool-cases, get_or, length, All-append, All-middle,
}
use k9_chatnet.Text.Case.{same_text}
use k9_chatnet.Session.Types.{Session, State}
use k9_chatnet.Session.Table.Flat.{
  sessions, find, find-Absent, find-middle, Absent, AllText, Unique, Unique-middle, Absent-cong,
  same_text_sym, same_text_cong,
}
use k9_chatnet.Session.Table.Locate.{Located}
use k9_chatnet.Session.Table.Writes.{
  left, right, sessions-left-right, sessions-store, sessions-unlink, bucket_split, hash_bound,
}
use k9_chatnet.Session.Table.Invariant.{IsValid, split-Sessions, found-hashed, store-IsValid}
use k9_chatnet.Session.Table.{Place, hash, store, unlink, link, new_session}

abbrev count_of : Option Session → ℕ
count_of none = 0
count_of (some s) = s.count

-- The clients of a host, case aside.
unfoldable pub clients : Bytes → List (List Session) → ℕ
clients k t = count_of (find k (sessions t))

-- The count in a list with one session in its middle.
clients-middle :
    (k : Bytes) (xs : List Session) (s : Session) (ys : List Session)
    → IsText k
    → AllText (xs ++ s ∷ ys)
    → Unique (xs ++ s ∷ ys)
    → count_of (find k (xs ++ s ∷ ys))
      ≡ (if same_text k s.host then s.count else count_of (find k (xs ++ ys)))
clients-middle k xs s ys hk ht u =
    let (text, texts) = (All-middle _ xs s ys).0 ht in
    let absent = ((Unique-middle xs s ys).0 u).0 in
    rw
      (find-middle k xs s ys hk (text, ((All-append _ xs ys).0 texts).0)
        ((All-append _ xs ys).0 absent).0)
      (ground arith)

-- A host that is the same as an absent one is absent too.
pub clients-Absent :
    (j k : Bytes) (l : List Session)
    → IsText j
    → IsText k
    → AllText l
    → Absent j l
    → same_text k j ≡ true
    → count_of (find k l) ≡ 0
clients-Absent j k l hj hk hl a e =
    rw (find-Absent k l (Absent-cong j k l hj hk hl (same_text_sym j k ∙ e) a))

-- The effect of a write, by what it makes of the list of sessions.
module _ {st : State} (v : IsValid st) {host : Bytes} {p : Place}
    (r : Located host st.sessionlist p) (th : IsText host) (k : Bytes) (tk : IsText k) where
  same_found : same_text k p.found.host ≡ same_text k host
  same_found =
      let text = ((All-middle _ (left r) p.found (right r)).0 (split-Sessions v r).texts).0 in
      same_text_sym k p.found.host
      ∙ sym (same_text_cong host p.found.host k th text tk r.hit)
      ∙ same_text_sym host k

  pub clients-found :
      clients k st.sessionlist
      ≡ (if same_text k host then p.found.count else count_of (find k (left r ++ right r)))
  unfolding clients
  clients-found = rw (sessions-left-right r) (
      clients-middle k (left r) p.found (right r) tk (split-Sessions v r).texts
        (split-Sessions v r).unique
      ∙ ap (λ b. if b then p.found.count else count_of (find k (left r ++ right r))) same_found)

  pub clients-store :
      (s : Session)
      → s.host ≡ p.found.host
      → 0 < s.count
      → clients k (store st.sessionlist p s)
        ≡ (if same_text k host then s.count else clients k st.sessionlist)
  clients-store s e c =
      let w = store-IsValid v r s e c in
      let l = left r ++ s ∷ right r in
      let same : same_text k s.host ≡ same_text k host = ap (same_text k) e ∙ same_found in
      unfold clients in
      rw (sessions-store r s) (
        ground (
          arith,
          clients-middle k (left r) s (right r) tk (subst AllText (sessions-store r s) w.texts)
              (subst Unique (sessions-store r s) w.unique),
          same,
          clients-found,
        ))

  pub clients-unlink :
      clients k (unlink st.sessionlist p)
      ≡ (if same_text k host then 0 else clients k st.sessionlist)
  unfolding clients
  clients-unlink =
      let l = left r ++ right r in
      let (absent, _) = (Unique-middle (left r) p.found (right r)).0 (split-Sessions v r).unique in
      let (text, texts) = (All-middle _ (left r) p.found (right r)).0 (split-Sessions v r).texts in
      let gone = clients-Absent p.found.host k l text tk texts absent in
      rw (sessions-unlink r (found-hashed v r)) (elim (Bool-cases (same_text k host)) [
        | inl yes' ↦ rw yes' (gone (same_found ∙ yes'))
        | inr no' ↦ ground (arith, no', clients-found)
      ])

pub clients-link :
    (k host : Bytes) (st : State)
    → IsValid st
    → IsText k
    → IsText host
    → Absent host (sessions st.sessionlist)
    → clients k (link st.sessionlist (new_session host))
      ≡ (if same_text k host then clients k st.sessionlist + 1 else clients k st.sessionlist)
unfolding clients link
clients-link k host st v tk th a =
    let bound : hash host < length st.sessionlist = omega (arith, hash_bound host, v.sized) in
    let (xs, ys, at, whole, replaced) = bucket_split st.sessionlist (hash host) bound in
    let b = get_or st.sessionlist (hash host) [] in
    let texts = (All-append _ xs (b ++ ys)).0 (subst AllText whole v.texts) in
    let absent = (All-append _ xs (b ++ ys)).0 (subst (Absent host) whole a) in
    let found = find-middle k xs (new_session host) (b ++ ys) tk (th, texts.0) absent.0 in
    let unknown = clients-Absent host k (sessions st.sessionlist) th tk v.texts a in
    rw (replaced (new_session host ∷ b), found)
      (elim (Bool-cases (same_text k host)) [
        | inl yes' ↦ rw (yes', unknown yes') (omega arith)
        | inr no' ↦ rw (no', whole)
      ])
