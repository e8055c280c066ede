-- ===== src/Session/Exceptions/Expiry.antt =====
-- sessions.c: `expire_exceptions` removes in place what a filter would keep out.
use k9_chatnet.Common.{
  ℕ, zero, suc, ◌≤◌, ◌≡◌, refl, sym, ◌∙◌, ap, inl, inr, true, false, List, [], ◌∷◌, ◌++◌, none,
  some, arith, if◌then◌else◌, Bool-cases, Option-cases, take, drop, length, get_elem?, append_assoc,
  append-nil, drop-get_elem?, take-get_elem?,
}
use k9_chatnet.Session.Types.{Exception, Effect, wallops_expired, Config}
use k9_chatnet.Session.Exceptions.{is_live, remove_at, expire_loop, expire_exceptions}

-- The entries that have not expired.
unfoldable pub live : ℕ → List Exception → List Exception
live now [] = []
live now (e ∷ es) = if is_live now e then e ∷ live now es else live now es

-- The announcements of the others, in their order.
pub announced : Config → ℕ → List Exception → List Effect
announced c now [] = []
announced c now (e ∷ es) =
    if is_live now e
    then announced c now es
    else if c.wall_exception_expire
    then wallops_expired e.mask ∷ announced c now es
    else announced c now es

drop_past : {A : Type 0} (i : ℕ) (xs : List A) → get_elem? xs i ≡ none → drop i xs ≡ []
drop_past zero [] e = refl
drop_past (suc i) [] e = refl
drop_past zero (y ∷ xs) e = cc
drop_past (suc i) (y ∷ xs) e = drop_past i xs e

take_all : {A : Type 0} (i : ℕ) (xs : List A) → get_elem? xs i ≡ none → take i xs ≡ xs
take_all zero [] e = refl
take_all (suc i) [] e = refl
take_all zero (y ∷ xs) e = cc
take_all (suc i) (y ∷ xs) e = ap (◌∷◌ y) (take_all i xs e)

-- What stands before the removed entry, and what comes to stand in its place.
take-remove_at :
    (i : ℕ) (es : List Exception) (e : Exception)
    → get_elem? es i ≡ some e
    → take i (remove_at es i) ≡ take i es
unfolding remove_at
take-remove_at i [] x e = cc
take-remove_at zero (y ∷ es) x e = refl
take-remove_at (suc i) (y ∷ es) x e = ap (◌∷◌ y) (take-remove_at i es x e)

drop-remove_at :
    (i : ℕ) (es : List Exception) (e : Exception)
    → get_elem? es i ≡ some e
    → drop i (remove_at es i) ≡ drop (suc i) es
unfolding remove_at
drop-remove_at i [] x e = cc
drop-remove_at zero (y ∷ es) x e = refl
drop-remove_at (suc i) (y ∷ es) x e = drop-remove_at i es x e

-- The result that the loop has still to reach from index `i` on.
abbrev remainder : Config → ℕ → ℕ → List Exception → List Exception × List Effect
remainder c now i es = (take i es ++ live now (drop i es), announced c now (drop i es))

remainder_past :
    (c : Config) (now i : ℕ) (es : List Exception)
    → get_elem? es i ≡ none
    → remainder c now i es ≡ (es, [])
unfolding live announced
remainder_past c now i es past = rw (drop_past i es past, take_all i es past, append-nil)

remainder_live :
    (c : Config) (now i : ℕ) (es : List Exception) (e : Exception)
    → get_elem? es i ≡ some e
    → is_live now e ≡ true
    → remainder c now i es ≡ remainder c now (suc i) es
unfolding live announced
remainder_live c now i es e at keep =
    rw (drop-get_elem? i es e at, take-get_elem? i es e at, keep)
      (ap (λ l. (l, announced c now (drop (suc i) es)))
        (sym (append_assoc (take i es) (e ∷ []) (live now (drop (suc i) es)))))

remainder_over :
    (c : Config) (now i : ℕ) (es : List Exception) (e : Exception)
    → get_elem? es i ≡ some e
    → is_live now e ≡ false
    → remainder c now i es ≡ (
      (remainder c now i (remove_at es i)).0,
      (if c.wall_exception_expire
          then wallops_expired e.mask ∷ (remainder c now i (remove_at es i)).1
          else (remainder c now i (remove_at es i)).1),
    )
unfolding live announced
remainder_over c now i es e at over =
    rw (drop-get_elem? i es e at, take-remove_at i es e at, drop-remove_at i es e at, over)

expire_loop-remainder :
    (c : Config) (now rounds i : ℕ) (es : List Exception)
    → length (drop i es) ≤ rounds
    → expire_loop c now rounds i es ≡ remainder c now i es
unfolding expire_loop
expire_loop-remainder c now zero i es h = elim (Option-cases (get_elem? es i)) [
  | inl past ↦ sym (remainder_past c now i es past)
  | inr (e, at) ↦ absurd (omega (arith, ap length (drop-get_elem? i es e at)))
]
expire_loop-remainder c now (suc rounds) i es h = elim (Option-cases (get_elem? es i)) [
  | inl past ↦ rw (past, expire_loop) (sym (remainder_past c now i es past))
  | inr (e, at) ↦
      let less = ap length (drop-get_elem? i es e at) in
      elim (Bool-cases (is_live now e)) [
        | inl keep ↦
            rw (at, expire_loop)
              (rw (keep, expire_loop)
                (expire_loop-remainder c now rounds (suc i) es (omega (arith, less))
                  ∙ sym (remainder_live c now i es e at keep)))
        | inr over ↦
            let ih =
              expire_loop-remainder c now rounds i (remove_at es i)
                (omega (arith, less, ap length (drop-remove_at i es e at))) in
            rw (at, expire_loop)
              (rw (over, expire_loop, ih) (sym (remainder_over c now i es e at over)))
      ]
]

-- The loop that steps back after a removal leaves exactly the exceptions that have not expired, in
-- their order. With WallExceptionExpire it announces exactly the others, in their order, and without it none.
pub expire_exceptions-live :
    (c : Config) (now : ℕ) (es : List Exception)
    → expire_exceptions c now es ≡ (live now es, announced c now es)
unfolding expire_exceptions
expire_exceptions-live c now es = expire_loop-remainder c now (length es) 0 es (omega arith)
