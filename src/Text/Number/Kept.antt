-- ===== src/Text/Number/Kept.antt =====
-- misc.c `process_numlist`: what every call of the callback keeps.
use k9_chatnet.Common.{
  ℕ, zero, suc, ◌+◌, Bool, true, false, [], ◌∷◌, Bytes, Option, none, some, leb, length, if_cases,
  if◌then◌else◌,
}
use k9_chatnet.Common.Int.{pos, ◌+ℤ◌, ltb_ℤ}
use k9_chatnet.Text.Number.{
  Callback, Progress, call, walk, after_walk, run_item, next_item, list_loop, process_numlist,
  skip_to, is_comma, rounds, nat_part, parse_item,
}

-- Of a result, if there is one.
abbrev pub Ends : {S : Type 0} → (S → Type 0) → Option (Progress S) → Type 0
Ends P none = Unit
Ends P (some q) = P q.state

module _ {S : Type 0} (callback : Callback S) (P : S → Type 0)
    (keeps : (s : S) (n : ℕ) → P s → P (callback s n).0) where
  walk-keeps : (r i : ℕ) (p : Progress S) → P p.state → P (walk callback r i p).0.state
  unfolding walk
  walk-keeps zero i p h = h
  walk-keeps (suc r) i p h =
      let (q, res) = call callback p i in
      let added : Progress S = record q { retval = q.retval +ℤ res } in
      let further = walk callback r (i + 1) added in
      let once : P (callback p.state i).0 = keeps p.state i h in
      if_cases (λ (w : Progress S × Bool). P w.0.state) (ltb_ℤ res (pos 0)) (q, false)
        (if leb 32767 q.count then (added, true) else further) (λ e. once)
        (λ e.
          if_cases (λ (w : Progress S × Bool). P w.0.state) (leb 32767 q.count) (added, true)
            further (λ f. once) (λ f. walk-keeps r (i + 1) added once))

  after_walk-keeps :
      (rest : Bytes) (w : Progress S × Bool) → P w.0.state → P (after_walk callback rest w).0.state
  unfolding after_walk
  after_walk-keeps rest (q, true) h = h
  after_walk-keeps rest (q, false) h = go (skip_to is_comma rest)
    where
      go :
          (t : Bytes)
          → P
              (elim t as (λ (_ : Bytes). Progress S × Option Bytes) [
                | [] ↦ (q, none)
                | c ∷ u ↦ (q, some u)
              ]).0.state
      go [] = h
      go (c ∷ u) = h

  next_item-keeps :
      (again : Bytes → Progress S → Option (Progress S)) (r : Progress S × Option Bytes)
      → ((t : Bytes) (q : Progress S) → P q.state → Ends P (again t q))
      → P r.0.state
      → Ends P (next_item callback again r)
  next_item-keeps again (q, none) further h = h
  next_item-keeps again (q, some t) further h = further t q h

  list_loop-keeps :
      (fuel : ℕ) (s : Bytes) (p : Progress S) → P p.state → Ends P (list_loop callback fuel s p)
  unfolding list_loop run_item
  list_loop-keeps zero s p h = tt
  list_loop-keeps (suc fuel) s p h =
      let (n1, n2, rest) = parse_item s in
      let w = walk callback (rounds n1 n2) (nat_part n1) p in
      next_item-keeps (list_loop callback fuel) (after_walk callback rest w) (list_loop-keeps fuel)
        (after_walk-keeps rest w (walk-keeps (rounds n1 n2) (nat_part n1) p h))

  -- Whatever the string is, the state behind `process_numlist` has what every call keeps.
  pub process_numlist-keeps :
      (s : S) (numstr : Bytes) → P s → Ends P (process_numlist callback s numstr)
  unfolding process_numlist
  process_numlist-keeps s numstr h = list_loop-keeps (suc (length numstr)) numstr _ h
