-- ===== src/Slist/Bounds/Clearing.antt =====
-- slist.c: the bounds of a list while `slist_delete_range` clears its entries.
use k9_chatnet.Common.{
  [], ℕ, zero, suc, ◌-◌, min, ◌≡◌, subst, inl, inr, Bool, true, false, ◌∷◌, Bytes, Option, none,
  some, arith, length, length-set, get_elem?, Bool-cases,
}
use k9_chatnet.Common.Int.{ℤ, pos, negsuc}
use k9_chatnet.Text.Number.{is_comma, skip_to, parse_item}
use k9_chatnet.Slist.{
  Opts, next_round, run_item, Cleared, clear_one, clear_walk, clear_item, clear_loop, after_item,
}
use k9_chatnet.Slist.Bounds.{IsBounded}

module _ {A : Type 0} (opts : Opts A) where
  clear_one-IsBounded :
      (allowed : A → Bool) (i : ℕ) (c : Cleared opts) (e : Option (Option A))
      → IsBounded c.0
      → IsBounded (clear_one opts allowed i c e).0.0
  clear_one-IsBounded allowed i c none h = h
  clear_one-IsBounded allowed i c (some none) h = h
  clear_one-IsBounded allowed i (l, n) (some (some x)) h =
      let same = length-set l.entries i none in
      elim (Bool-cases (allowed x)) [
        | inl permitted ↦ rw permitted (omega (arith, same, h.0), h.1, h.2)
        | inr refused ↦ rw refused h
      ]

  next_round-IsBounded :
      (again : Cleared opts → Cleared opts × Bool)
      → ((c : Cleared opts) → IsBounded c.0 → IsBounded (again c).0.0)
      → (s : Cleared opts × Bool) → IsBounded s.0.0
      → IsBounded (next_round opts again s).0.0
  next_round-IsBounded again h (c, true) k = k
  next_round-IsBounded again h (c, false) k = h c k

  clear_walk-IsBounded :
      (allowed : A → Bool) (r i : ℕ) (c : Cleared opts)
      → IsBounded c.0
      → IsBounded (clear_walk opts allowed r i c).0.0
  unfolding clear_walk
  clear_walk-IsBounded allowed zero i c h = h
  clear_walk-IsBounded allowed (suc r) i c h =
      next_round-IsBounded (clear_walk opts allowed r (suc i))
        (clear_walk-IsBounded allowed r (suc i))
        (clear_one opts allowed i c (get_elem? c.0.entries i))
        (clear_one-IsBounded allowed i c (get_elem? c.0.entries i) h)

  clear_item-IsBounded :
      (allowed : A → Bool) (a b : ℤ) (c : Cleared opts)
      → IsBounded c.0
      → IsBounded (clear_item opts allowed a b c).0.0
  unfolding clear_item
  clear_item-IsBounded allowed (pos zero) (pos b) c h = h
  clear_item-IsBounded allowed (pos zero) (negsuc b) c h = h
  clear_item-IsBounded allowed (pos (suc a)) (pos b) c h =
      clear_walk-IsBounded allowed (min b (length c.0.entries) - a) a c h
  clear_item-IsBounded allowed (pos (suc a)) (negsuc b) c h = h
  clear_item-IsBounded allowed (negsuc a) b c h = h

  abbrev BoundedIn : Option (Cleared opts × Bool) → Type 0
  BoundedIn none = Unit
  BoundedIn (some r) = IsBounded r.0.0

  after_item-IsBounded :
      (again : Bytes → Cleared opts → Option (Cleared opts × Bool)) (r : Cleared opts × Bool)
      → ((t : Bytes) (c : Cleared opts) → IsBounded c.0 → again t c ≡ some r → IsBounded r.0.0)
      → (s : Cleared opts × Bool) (rest : Bytes) → IsBounded s.0.0
      → after_item opts again s rest ≡ some r
      → IsBounded r.0.0
  after_item-IsBounded again r h (c, true) rest k e =
      subst (λ (o : Option (Cleared opts × Bool)). BoundedIn o) e k
  after_item-IsBounded again r h (c, false) [] k e =
      subst (λ (o : Option (Cleared opts × Bool)). BoundedIn o) e k
  after_item-IsBounded again r h (c, false) (b ∷ rest) k e = h rest c k e

  item-IsBounded :
      (allowed : A → Bool) (again : Bytes → Cleared opts → Option (Cleared opts × Bool))
      (r : Cleared opts × Bool)
      → ((t : Bytes) (c : Cleared opts) → IsBounded c.0 → again t c ≡ some r → IsBounded r.0.0)
      → (c : Cleared opts) (p : ℤ × ℤ × Bytes) → IsBounded c.0
      → run_item opts allowed again c p ≡ some r
      → IsBounded r.0.0
  item-IsBounded allowed again r h c (n1, n2, rest) k e =
      after_item-IsBounded again r h (clear_item opts allowed n1 n2 c) (skip_to is_comma rest)
        (clear_item-IsBounded allowed n1 n2 c k) e

  pub loop-IsBounded :
      (allowed : A → Bool) (fuel : ℕ) (s : Bytes) (c : Cleared opts) (r : Cleared opts × Bool)
      → IsBounded c.0
      → clear_loop opts allowed fuel s c ≡ some r
      → IsBounded r.0.0
  unfolding clear_loop
  loop-IsBounded allowed zero s c r h e = cc
  loop-IsBounded allowed (suc fuel) s c r h e =
      item-IsBounded allowed (clear_loop opts allowed fuel) r
        (λ t d k f. loop-IsBounded allowed fuel t d r k f) c (parse_item s) h e
