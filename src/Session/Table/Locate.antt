-- ===== src/Session/Table/Locate.antt =====
-- sessions.c: what `findsession` finds, and what a write at the place does to the list of sessions.
use k9_chatnet.Common.{
  ℕ, suc, ◌+◌, ◌≡◌, refl, sym, ◌∙◌, ap, subst, inl, inr, true, List, [], ◌∷◌, ◌++◌, Bytes, none,
  some, arith, Bool-cases, Option-cases, append_assoc, set, get_elem?, All-append,
}
use k9_chatnet.Text.Case.{same_text}
use k9_chatnet.Session.Types.{Session}
use k9_chatnet.Session.Table.Flat.{sessions, Absent}
use k9_chatnet.Session.Table.{Table, Place, find_in, find_from, findsession}

find_in-none : (i : ℕ) (k : Bytes) (pre b : List Session) → find_in i k pre b ≡ none → Absent k b
unfolding find_in
find_in-none i k pre [] e = tt
find_in-none i k pre (s ∷ b) e = ground (arith, find_in-none i k (pre ++ s ∷ []) b)

-- The found session splits its bucket; nothing before it is for the host.
abbrev SplitsBucket : ℕ → Bytes → List Session → Place → Type 0
SplitsBucket i k b p =
    (p.bucket ≡ i)
    × (b ≡ p.before ++ p.found ∷ p.after)
    × Absent k p.before
    × (same_text k p.found.host ≡ true)

find_in-some :
    (i : ℕ) (k : Bytes) (pre b : List Session) (p : Place)
    → Absent k pre
    → find_in i k pre b ≡ some p
    → SplitsBucket i k (pre ++ b) p
unfolding find_in
find_in-some i k pre [] p a e = cc
find_in-some i k pre (s ∷ b) p a e = elim (Bool-cases (same_text k s.host)) [
  | inl hit ↦ ground arith
  | inr miss ↦
      let (i', split, none_before, hit) =
        find_in-some i k (pre ++ s ∷ []) b p ((All-append _ pre (s ∷ [])).1 (a, (miss, tt)))
          (ground arith) in
      (i', sym (append_assoc pre (s ∷ []) b) ∙ split, none_before, hit)
]

-- A place in the table: what the sessions before and behind its bucket are, and what the sessions
-- become when the bucket is replaced.
pub record Located (k : Bytes) (t : Table) (p : Place) : Type 0 where
  pub front : List Session
  pub back : List Session
  pub at : get_elem? t p.bucket ≡ some (p.before ++ p.found ∷ p.after)
  pub whole : sessions t ≡ front ++ ((p.before ++ p.found ∷ p.after) ++ back)
  pub replaced : (b : List Session) → sessions (set t p.bucket b) ≡ front ++ (b ++ back)
  pub absent : Absent k (front ++ p.before)
  pub hit : same_text k p.found.host ≡ true

-- The same for the loop from bucket `i` on, where `j` counts from there.
record LocatedFrom (i : ℕ) (k : Bytes) (t : Table) (p : Place) : Type 0 where
  index : ℕ
  offset : p.bucket ≡ i + index
  front : List Session
  back : List Session
  at : get_elem? t index ≡ some (p.before ++ p.found ∷ p.after)
  whole : sessions t ≡ front ++ ((p.before ++ p.found ∷ p.after) ++ back)
  replaced : (b : List Session) → sessions (set t index b) ≡ front ++ (b ++ back)
  absent : Absent k (front ++ p.before)
  hit : same_text k p.found.host ≡ true

find_from-some :
    (i : ℕ) (k : Bytes) (t : Table) (p : Place) → find_from i k t ≡ some p → LocatedFrom i k t p
unfolding find_from
find_from-some i k [] p e = absurd (cc)
find_from-some i k (b ∷ t) p e = elim (Option-cases (find_in i k [] b)) [
  | inl miss ↦
      let r = find_from-some (suc i) k t p (ground arith) in
      record {
        index = suc r.index;
        offset = omega (arith, r.offset);
        front = b ++ r.front;
        back = r.back;
        at = r.at;
        whole = ap (◌++◌ b) r.whole ∙ sym (append_assoc b r.front _);
        replaced = λ c. ap (◌++◌ b) (r.replaced c) ∙ sym (append_assoc b r.front _);
        absent =
            subst (Absent k) (sym (append_assoc b r.front p.before))
              ((All-append _ b _).1 (find_in-none i k [] b miss, r.absent));
        hit = r.hit;
      }
  | inr (q, found) ↦
      let (i', split, absent, hit) = find_in-some i k [] b p tt (found ∙ ground arith) in
      record {
        index = 0;
        offset = omega (arith, i');
        front = [];
        back = sessions t;
        at = ap some split;
        whole = ap (λ c. c ++ sessions t) split;
        replaced = λ c. refl;
        absent = absent;
        hit = hit;
      }
]

find_from-none : (i : ℕ) (k : Bytes) (t : Table) → find_from i k t ≡ none → Absent k (sessions t)
unfolding find_from
find_from-none i k [] e = tt
find_from-none i k (b ∷ t) e = elim (Option-cases (find_in i k [] b)) [
  | inl miss ↦
      (All-append _ b _).1 (find_in-none i k [] b miss, find_from-none (suc i) k t (ground arith))
  | inr (q, found) ↦ ground arith
]

pub findsession-some :
    (t : Table) (k : Bytes) (p : Place) → findsession t k ≡ some p → Located k t p
unfolding findsession
findsession-some t k p e =
    let r = find_from-some 0 k t p e in
    let same : r.index ≡ p.bucket = omega (arith, r.offset) in
    record {
      front = r.front;
      back = r.back;
      at = subst (λ i. get_elem? t i ≡ some (p.before ++ p.found ∷ p.after)) same r.at;
      whole = r.whole;
      replaced = λ b. ap (λ i. sessions (set t i b)) (sym same) ∙ r.replaced b;
      absent = r.absent;
      hit = r.hit;
    }

pub findsession-none : (t : Table) (k : Bytes) → findsession t k ≡ none → Absent k (sessions t)
unfolding findsession
findsession-none t k e = find_from-none 0 k t e
