-- ===== src/Process/Ignore/Kept.antt =====
-- process.c: what `get_ignore` finds after `add_ignore`, and what it does to the lists.
use k9_chatnet.Common.{
  ℕ, zero, suc, ◌+◌, ◌≤◌, ◌<◌, ◌≡◌, ◌≢◌, refl, sym, ap, subst, ◌∙◌, inl, inr, true, false, List, [],
  ◌∷◌, ◌++◌, Bytes, Option, none, some, arith, take, length, leb, ◌==◌, ==-refl, Bool-cases,
}
use k9_chatnet.Text.Case.{same_text, same_text_refl}
use k9_chatnet.User.{User}
use k9_chatnet.Process.Ignore.{
  Ignore, Ignores, put, short, index_of, prolong, renew, renewed_or, add_ignore, Found, search_in,
  search, usermask_test, search_all, flush, get_ignore,
}

short_id : (nick : Bytes) → length nick ≤ 31 → short nick ≡ nick
short_id nick h = go 31 nick h
  where
    go : (n : ℕ) (s : Bytes) → length s ≤ n → take n s ≡ s
    go zero [] h = refl
    go zero (c ∷ s) h = absurd (omega arith)
    go (suc n) [] h = refl
    go (suc n) (c ∷ s) h = ap (◌∷◌ c) (go n s (omega arith))

put_same : (t : Ignores) (i : ℕ) (l : List Ignore) → put t i l i ≡ l
put_same t i l = rw (==-refl i) refl

put_other : (t : Ignores) (i k : ℕ) (l : List Ignore) → k ≢ i → put t i l k ≡ t k
put_other t i k l h = let other : (k == i) ≡ false = ground (arith, h) in rw other refl

-- The first entry for the nick is in force at least until `until`.
abbrev InForce : ℕ → Bytes → List Ignore → List Ignore → Type 0
InForce until nick before es =
    (p : Found) × (search_in (λ who. same_text who nick) before es ≡ some p)
    × (until ≤ p.entry.time)

prolong_time : (now delta : ℕ) (e : Ignore) → now + delta ≤ (prolong now delta e).time
prolong_time now delta e = ground arith

-- The same of a renewed list, where there is one.
abbrev Renewed : ℕ → Bytes → List Ignore → Option (List Ignore) → Type 0
Renewed until nick before none = Unit
Renewed until nick before (some r) = InForce until nick before r

cons-Renewed :
    (until : ℕ) (nick : Bytes) (before : List Ignore) (e : Ignore) (o : Option (List Ignore))
    → same_text e.who nick ≡ false
    → Renewed until nick (before ++ e ∷ []) o
    → Renewed until nick before (elim o [ none ↦ none | some l ↦ some (e ∷ l) ])
unfolding search_in
cons-Renewed until nick before e none miss h = tt
cons-Renewed until nick before e (some r) miss h = rw miss h

renew-Renewed :
    (now delta : ℕ) (nick : Bytes) (before es : List Ignore)
    → Renewed (now + delta) nick before (renew now delta nick es)
unfolding renew search_in
renew-Renewed now delta nick before [] = tt
renew-Renewed now delta nick before (e ∷ es) = elim (Bool-cases (same_text e.who nick)) [
  | inl hit ↦ rw hit (rw hit (_, refl, prolong_time now delta e))
  | inr miss ↦ rw miss (
      cons-Renewed (now + delta) nick before e (renew now delta nick es) miss
        (renew-Renewed now delta nick (before ++ e ∷ []) es))
]

renewed_or-InForce :
    (until : ℕ) (nick : Bytes) (o : Option (List Ignore)) (l : List Ignore)
    → Renewed until nick [] o
    → InForce until nick [] l
    → InForce until nick [] (renewed_or o l)
renewed_or-InForce until nick none l h k = k
renewed_or-InForce until nick (some r) l h k = h

new-InForce :
    (now delta : ℕ) (nick : Bytes) (es : List Ignore)
    → InForce (now + delta) nick [] (record { who = nick; time = now + delta } ∷ es)
unfolding search_in
new-InForce now delta nick es = rw (same_text_refl nick) (_, refl, omega arith)

add-InForce :
    (now delta : ℕ) (nick : Bytes) (t : Ignores)
    → length nick ≤ 31
    → InForce (now + delta) nick [] (add_ignore now nick delta t (index_of nick))
unfolding add_ignore
add-InForce now delta nick t h =
    let i = index_of nick in
    let es = t i in
    subst (InForce (now + delta) nick [])
      (sym (
          ap
            (λ who.
              renewed_or (renew now delta who es) (record { who = who; time = now + delta } ∷ es))
            (short_id nick h))
        ∙ sym (put_same t i _))
      (renewed_or-InForce (now + delta) nick (renew now delta nick es) _
        (renew-Renewed now delta nick [] es) (new-InForce now delta nick es))

get_ignore-InForce :
    (now until : ℕ) (t : Ignores) (nick : Bytes) (u : Option User)
    → InForce until nick [] (t (index_of nick))
    → now < until
    → (e : Ignore) × (get_ignore now t nick u ≡ (t, some e)) × (until ≤ e.time)
unfolding get_ignore search_all
get_ignore-InForce now until t nick u (p, found, h) less =
    let over : leb p.entry.time now ≡ false = ground arith in
    (p.entry, rw (found, get_ignore) (rw over refl), h)

-- A nick of at most 31 bytes that is added to be ignored is found by `get_ignore` before the time has passed, as
-- long as the list of the nick's first byte is the one that `add_ignore` has left, whatever the other lists have become: the
-- call finds an entry that lasts at least so long, and changes nothing. A call for another nick with the same first byte may change
-- that list.
pub add_ignore-get_ignore :
    (now now' delta : ℕ) (nick : Bytes) (u : Option User) (t t' : Ignores)
    → length nick ≤ 31
    → now' < now + delta
    → t' (index_of nick) ≡ add_ignore now nick delta t (index_of nick)
    → (e : Ignore) × (get_ignore now' t' nick u ≡ (t', some e)) × (now + delta ≤ e.time)
add_ignore-get_ignore now now' delta nick u t t' h less kept =
    get_ignore-InForce now' (now + delta) t' nick u
      (subst (InForce (now + delta) nick []) (sym kept) (add-InForce now delta nick t h)) less

-- When the nick has no entry of its own and its user matches an expired mask that is the first of the
-- list of masks with a `*` in front, the expired mask stays in that list, and the list of the nick's
-- first byte is replaced by the masks behind it.
pub get_ignore-expired_star :
    (now : ℕ) (t : Ignores) (nick : Bytes) (u : Option User) (p : Found)
    → search (λ who. same_text who nick) (t (index_of nick)) ≡ none
    → search (usermask_test u) (t b'*') ≡ some p
    → p.before ≡ []
    → p.entry.time ≤ now
    → b'*' ≢ index_of nick
    → ((get_ignore now t nick u).0 b'*' ≡ t b'*')
      × ((get_ignore now t nick u).0 (index_of nick) ≡ p.after)
      × ((get_ignore now t nick u).1 ≡ none)
unfolding get_ignore search_all flush
get_ignore-expired_star now t nick u p own star top old differs =
    let i = index_of nick in
    let over : leb p.entry.time now ≡ true = ground arith in
    let result : get_ignore now t nick u ≡ (put t i p.after, none) =
      rw (own, star, get_ignore) (rw (over, top) refl) in
    (
      (λ k. (result k).0 b'*') ∙ put_other t i b'*' p.after differs,
      (λ k. (result k).0 i) ∙ put_same t i p.after,
      (λ k. (result k).1),
    )
