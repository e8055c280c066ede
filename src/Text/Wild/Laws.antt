-- ===== src/Text/Wild/Laws.antt =====
-- `do_match_wild` against `Matches`.
use k9_chatnet.Common.{
  ℕ, ◌<◌, ◌≡◌, refl, ◌≢◌, ◌↔◌, inl, inr, Bool, true, false, ◌&&◌, [], ◌∷◌, Bytes, arith, IsText,
  codes, ◌==◌, Bool-cases,
}
use k9_chatnet.Text.Case.{tolower, tolower_pos}
use k9_chatnet.Text.Wild.Glob.{Same, Matches, empty, any, byte, leave, take, NoStarQuery, Without}
use k9_chatnet.Text.Wild.{
  same_byte, scan, skip_one, take_byte, after_star, do_match_wild, match_wild_nocase,
}

same_byte_iff : (docase : Bool) (a b : ℕ) → (same_byte docase a b ≡ true) ↔ Same docase a b
unfolding same_byte
same_byte_iff true a b = ground arith
same_byte_iff false a b = ground arith

tolower_zero : tolower 0 ≡ 0
unfolding tolower
tolower_zero = refl

-- `star` takes as much of the text as the search passes over.
scan_sound :
    (docase : Bool) (q r : ℕ) (p : Bytes) (next : Bytes → Bool) (s : Bytes)
    → q ≡ b'*'
    → ((t : Bytes) → next t ≡ true → Matches docase p t)
    → scan docase r next s ≡ true
    → Matches docase (q ∷ p) s
unfolding scan
scan_sound docase q r p next [] e h g = cc
scan_sound docase q r p next (c ∷ s) e h g =
    elim (Bool-cases (same_byte docase c r && next (c ∷ s))) [
      | inl hit ↦ leave e (h (c ∷ s) (ground arith))
      | inr miss ↦ take e (scan_sound docase q r p next s e h (ground arith))
    ]

star_all : (docase : Bool) (q : ℕ) (s : Bytes) → q ≡ b'*' → Matches docase (q ∷ []) s
star_all docase q [] e = leave e empty
star_all docase q (c ∷ s) e = take e (star_all docase q s e)

after_star_sound :
    (docase : Bool) (q : ℕ) (p : Bytes) (next : Bytes → Bool) (s : Bytes)
    → q ≡ b'*'
    → ((t : Bytes) → next t ≡ true → Matches docase p t)
    → after_star docase p next s ≡ true
    → Matches docase (q ∷ p) s
unfolding after_star
after_star_sound docase q [] next s e h g = star_all docase q s e
after_star_sound docase q (r ∷ p) next s e h g = elim (Bool-cases (scan docase r next s)) [
  | inl hit ↦ scan_sound docase q r (r ∷ p) next s e h hit
  | inr miss ↦ leave e (h s (ground arith))
]

take_byte_sound :
    (docase : Bool) (q : ℕ) (p : Bytes) (next : Bytes → Bool) (s : Bytes)
    → 0 < q
    → q ≢ b'?'
    → q ≢ b'*'
    → ((t : Bytes) → next t ≡ true → Matches docase p t)
    → take_byte docase q next s ≡ true
    → Matches docase (q ∷ p) s
unfolding take_byte
take_byte_sound true q p next [] pos nq ns h g = absurd (ground (arith, (same_byte_iff true 0 q).0))
take_byte_sound false q p next [] pos nq ns h g =
    absurd (ground (arith, (same_byte_iff false 0 q).0, tolower_pos q, tolower_zero))
take_byte_sound docase q p next (c ∷ s) pos nq ns h g =
    byte nq ns ((same_byte_iff docase c q).0 (ground arith)) (h s (ground arith))

skip_one_sound :
    (docase : Bool) (q : ℕ) (p : Bytes) (next : Bytes → Bool) (s : Bytes)
    → q ≡ b'?'
    → ((t : Bytes) → next t ≡ true → Matches docase p t)
    → skip_one next s ≡ true
    → Matches docase (q ∷ p) s
unfolding skip_one
skip_one_sound docase q p next [] e h g = cc
skip_one_sound docase q p next (c ∷ s) e h g = any e (h s g)

do_match_wild_sound :
    (docase : Bool) (p s : Bytes) → IsText p → do_match_wild docase p s ≡ true → Matches docase p s
unfolding do_match_wild
do_match_wild_sound docase [] [] hp e = empty
do_match_wild_sound docase [] (c ∷ s) hp e = cc
do_match_wild_sound docase (q ∷ p) s hp e = elim (Bool-cases (q == b'?')) [
  | inl query ↦
      skip_one_sound docase q p _ s (ground arith) (λ t. do_match_wild_sound docase p t hp.1)
        (ground arith)
  | inr other ↦ elim (Bool-cases (q == b'*')) [
    | inl star ↦
        after_star_sound docase q p _ s (ground arith) (λ t. do_match_wild_sound docase p t hp.1)
          (ground arith)
    | inr plain ↦
        take_byte_sound docase q p _ s hp.0 (ground arith) (ground arith)
          (λ t. do_match_wild_sound docase p t hp.1) (ground arith)
  ]
]

two_stars :
    {docase : Bool} {q r : ℕ} {p s : Bytes}
    → q ≡ b'*'
    → r ≡ b'*'
    → Matches docase (q ∷ r ∷ p) s
    → Matches docase (r ∷ p) s
two_stars e f (any g d) = absurd (omega arith)
two_stars e f (byte g h k d) = absurd (h e)
two_stars e f (leave g d) = d
two_stars e f (take g d) = take f (two_stars e f d)

-- A search for a byte that is no wildcard finds every place where the rest of the pattern fits.
scan_complete :
    (docase : Bool) (q r : ℕ) (p : Bytes) (next : Bytes → Bool) (s : Bytes)
    → q ≡ b'*'
    → r ≢ b'?'
    → r ≢ b'*'
    → ((t : Bytes) → Matches docase (r ∷ p) t → next t ≡ true)
    → Matches docase (q ∷ r ∷ p) s
    → scan docase r next s ≡ true
unfolding scan
scan_complete docase q r p next s e nq ns h (any g d) = absurd (omega arith)
scan_complete docase q r p next s e nq ns h (byte g k l d) = absurd (k e)
scan_complete docase q r p next s e nq ns h (leave g (any k d)) = absurd (nq k)
scan_complete docase q r p next s e nq ns h (leave g (leave k d)) = absurd (ns k)
scan_complete docase q r p next s e nq ns h (leave g (take k d)) = absurd (ns k)
scan_complete docase q r p next (c ∷ s) e nq ns h (leave g (byte k l same d)) =
    rw ((same_byte_iff docase c r).1 same, h (c ∷ s) (byte k l same d))
scan_complete docase q r p next (c ∷ s) e nq ns h (take g d) =
    ground (arith, scan_complete docase q r p next s e nq ns h d)

after_star_complete :
    (docase : Bool) (q : ℕ) (p : Bytes) (next : Bytes → Bool) (s : Bytes)
    → q ≡ b'*'
    → NoStarQuery (q ∷ p)
    → ((t : Bytes) → Matches docase p t → next t ≡ true)
    → Matches docase (q ∷ p) s
    → after_star docase p next s ≡ true
unfolding after_star
after_star_complete docase q [] next s e n h d = refl
after_star_complete docase q (r ∷ p) next s e n h d = elim (Bool-cases (r == b'*')) [
  | inl star ↦ ground (arith, h s (two_stars e (ground arith) d))
  | inr other ↦ rw (scan_complete docase q r p next s e (n.0 e) (ground arith) h d)
]

NoStarQuery-tail : (q : ℕ) (p : Bytes) → NoStarQuery (q ∷ p) → NoStarQuery p
NoStarQuery-tail q [] n = tt
NoStarQuery-tail q (r ∷ p) n = n.1

-- The test of the loop at each of the three kinds of pattern byte.
at_query :
    (docase : Bool) (q : ℕ) (p s : Bytes)
    → q ≡ b'?'
    → do_match_wild docase (q ∷ p) s ≡ skip_one (do_match_wild docase p) s
unfolding do_match_wild
at_query docase q p s e = let t : (q == b'?') ≡ true = ground arith in rw t

at_star :
    (docase : Bool) (q : ℕ) (p s : Bytes)
    → q ≡ b'*'
    → do_match_wild docase (q ∷ p) s ≡ after_star docase p (do_match_wild docase p) s
unfolding do_match_wild
at_star docase q p s e =
    let t : (q == b'?') ≡ false = ground arith in
    let u : (q == b'*') ≡ true = ground arith in rw (t, u)

at_plain :
    (docase : Bool) (q : ℕ) (p s : Bytes)
    → q ≢ b'?'
    → q ≢ b'*'
    → do_match_wild docase (q ∷ p) s ≡ take_byte docase q (do_match_wild docase p) s
unfolding do_match_wild
at_plain docase q p s nq ns =
    let t : (q == b'?') ≡ false = ground arith in
    let u : (q == b'*') ≡ false = ground arith in rw (t, u)

do_match_wild_complete :
    (docase : Bool) (p s : Bytes)
    → NoStarQuery p
    → Matches docase p s
    → do_match_wild docase p s ≡ true
unfolding skip_one take_byte
do_match_wild_complete docase [] s n empty = unfold do_match_wild in refl
do_match_wild_complete docase (q ∷ p) (c ∷ s) n (any e d) =
    rw (at_query docase q p (c ∷ s) e)
      (do_match_wild_complete docase p s (NoStarQuery-tail q p n) d)
do_match_wild_complete docase (q ∷ p) (c ∷ s) n (byte nq ns same d) =
    rw (at_plain docase q p (c ∷ s) nq ns, (same_byte_iff docase c q).1 same)
      (do_match_wild_complete docase p s (NoStarQuery-tail q p n) d)
do_match_wild_complete docase (q ∷ p) s n (leave e d) = rw (at_star docase q p s e) (
    after_star_complete docase q p _ s e n
      (λ t. do_match_wild_complete docase p t (NoStarQuery-tail q p n)) (leave e d))
do_match_wild_complete docase (q ∷ p) (c ∷ s) n (take e d) = rw (at_star docase q p (c ∷ s) e) (
    after_star_complete docase q p _ (c ∷ s) e n
      (λ t. do_match_wild_complete docase p t (NoStarQuery-tail q p n)) (take e d))

-- For a pattern in which no `*` has a `?` directly behind it, the routine returns 1 exactly for the
-- strings that the pattern matches, with or without regard to case.
pub do_match_wild_iff :
    (docase : Bool) (p s : Bytes)
    → IsText p
    → NoStarQuery p
    → (do_match_wild docase p s ≡ true) ↔ Matches docase p s
do_match_wild_iff docase p s hp n =
    (do_match_wild_sound docase p s hp, do_match_wild_complete docase p s n)

-- Whatever the pattern, a string that is accepted is matched by the pattern.
pub match_wild_nocase_sound :
    (p s : Bytes) → IsText p → match_wild_nocase p s ≡ true → Matches false p s
unfolding match_wild_nocase
match_wild_nocase_sound p s hp e = do_match_wild_sound false p s hp e

no_query : (docase : Bool) (c : ℕ) → c ≢ b'?' → same_byte docase c b'?' ≡ false
unfolding same_byte tolower
no_query true c h = ground arith
no_query false c h = ground arith

scan_no_query :
    (docase : Bool) (next : Bytes → Bool) (s : Bytes)
    → Without b'?' s
    → scan docase b'?' next s ≡ false
unfolding scan
scan_no_query docase next [] h = refl
scan_no_query docase next (c ∷ s) h = rw (no_query docase c h.0) (scan_no_query docase next s h.1)

any_text : (docase : Bool) (c : ℕ) (s : Bytes) → Matches docase (codes "*?") (c ∷ s)
any_text docase c [] = leave refl (any refl empty)
any_text docase c (d ∷ s) = take refl (any_text docase d s)

-- The pattern `*?` matches every string that is not empty, and the routine refuses those of two bytes
-- or more in which there is no `?`.
pub star_query_refused :
    (docase : Bool) (c d : ℕ) (s : Bytes)
    → Without b'?' (c ∷ d ∷ s)
    → Matches docase (codes "*?") (c ∷ d ∷ s)
      × (do_match_wild docase (codes "*?") (c ∷ d ∷ s) ≡ false)
unfolding do_match_wild after_star skip_one
star_query_refused docase c d s h =
    (any_text docase c (d ∷ s), rw (scan_no_query docase _ (c ∷ d ∷ s) h))
