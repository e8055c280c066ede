-- ===== src/Text/Replace.antt =====
-- misc.c `strnrepl`, on the text of the buffer, which has `size` bytes. `memmove` also moves bytes behind the NUL, which
-- are in the buffer or end the run; they come to stand behind the NUL again.
use k9_chatnet.Common.{
  ℕ, zero, suc, ◌+◌, ◌*◌, ◌<◌, ◌≤◌, ◌≡◌, ◌≢◌, leb, ◌||◌, ◌&&◌, refl, sym, ap, ◌∙◌, inl, inr, Bool,
  true, false, [], ◌∷◌, ◌++◌, Bytes, Option, none, some, arith, length, length-append, append-nil,
  ◌==◌, ==_iff, ltb, if◌then◌else◌, Bool-cases,
}

-- `strncmp(ptr, old, oldlen)`: what follows `old`, if the text begins with it.
unfoldable pub after_prefix : Bytes → Bytes → Option Bytes
after_prefix [] s = some s
after_prefix (a ∷ old) [] = none
after_prefix (a ∷ old) (c ∷ s) = let rest = after_prefix old s in if a == c then rest else none

-- What the loop comes to: the end of the fuel, a read or a write outside of the buffer, or a text.
pub data Run : Type 0 where
  out_of_fuel : Run
  outside : Run
  ends : Bytes → Run

abbrev pub prepend : Bytes → Run → Run
prepend s (ends t) = ends (s ++ t)
prepend s outside = outside
prepend s out_of_fuel = out_of_fuel

module _ (full : Bool) (size : ℕ) (old new : Bytes) where
  -- Whether `memmove` moves up to `left + 1` bytes from behind the old text, and to behind the new one, in the buffer.
  abbrev pub is_inside : ℕ → ℕ → Bool
  is_inside at left =
      (length new == length old)
      || (leb (at + length old + left + 1) size && leb (at + length new + left + 1) size)

  abbrev pub without_match : ℕ → Bytes → (ℕ → Bytes → Run) → Run
  without_match at [] again = outside
  without_match at (c ∷ s) again = prepend (c ∷ []) (again (at + 1) s)

  abbrev pub at_match : ℕ → Bytes → (ℕ → Bytes → Run) → Option Bytes → Run
  at_match at s again none = without_match at s again
  at_match at s again (some t) =
      if full
      then ends s
      else if is_inside at (length s)
      then prepend new (again (at + length new) t)
      else outside

  -- The loop, on the text from `ptr` on, which is at the index `at`.
  unfoldable pub repl_loop : ℕ → ℕ → Bytes → Run
  repl_loop zero at s = out_of_fuel
  repl_loop (suc fuel) at s =
      if ltb (length s) (length old)
      then ends s
      else at_match at s (repl_loop fuel) (after_prefix old s)

-- `diff > avail`; both are computed from the text as it is at first.
abbrev pub is_full : ℕ → Bytes → Bytes → Bytes → Bool
is_full size old new s = ltb (size + length old) (length new + length s + 1)

unfoldable pub strnrepl : Bytes → ℕ → Bytes → Bytes → Run
strnrepl s size old new = repl_loop (is_full size old new s) size old new (suc (length s)) 0 s

-- At no place of `p`, which `t` follows, does `old` begin.
abbrev pub NoMatch : Bytes → Bytes → Bytes → Type 0
NoMatch old [] t = Unit
NoMatch old (c ∷ p) t = (after_prefix old (c ∷ p ++ t) ≡ none) × NoMatch old p t

-- The `k` places of `old`, from the left on and without a common byte, hold `new`.
pub data Replaced (old new : Bytes) : ℕ → Bytes → Bytes → Type 0 where
  last : {k : ℕ} {s out : Bytes} → k ≡ 0 → out ≡ s → NoMatch old s [] → Replaced old new k s out
  found :
      {k : ℕ} {s out : Bytes} (j : ℕ) (p t r : Bytes)
      → k ≡ j + 1
      → s ≡ p ++ (old ++ t)
      → out ≡ p ++ (new ++ r)
      → NoMatch old p (old ++ t)
      → Replaced old new j t r
      → Replaced old new k s out

after_prefix-some : (old s t : Bytes) → after_prefix old s ≡ some t → s ≡ old ++ t
unfolding after_prefix
after_prefix-some [] s t h = cc
after_prefix-some (a ∷ old) [] t h = cc
after_prefix-some (a ∷ old) (c ∷ s) t h = elim (Bool-cases (a == c)) [
  | inl hit ↦
      let rest : s ≡ old ++ t = after_prefix-some old s t (sym (rw (hit, after_prefix) refl) ∙ h) in
      let same : a ≡ c = (==_iff a c).0 hit in cc
  | inr miss ↦ let wrong : none ≡ some t = sym (rw (miss, after_prefix) refl) ∙ h in cc
]

after_prefix-short : (old s : Bytes) → length s < length old → after_prefix old s ≡ none
unfolding after_prefix
after_prefix-short [] s h = absurd (omega (arith, h))
after_prefix-short (a ∷ old) [] h = refl
after_prefix-short (a ∷ old) (c ∷ s) h = elim (Bool-cases (a == c)) [
  | inl hit ↦ rw hit (after_prefix-short old s (omega (arith, h)))
  | inr miss ↦ rw miss refl
]

NoMatch-short : (old s : Bytes) → length s < length old → NoMatch old s []
NoMatch-short old [] h = tt
NoMatch-short old (c ∷ s) h =
    (rw (append-nil s) (after_prefix-short old (c ∷ s) h), NoMatch-short old s (omega (arith, h)))

-- A byte in front at which `old` does not begin.
cons-Replaced :
    (old new : Bytes) (k c : ℕ) (s out : Bytes)
    → after_prefix old (c ∷ s) ≡ none
    → Replaced old new k s out
    → Replaced old new k (c ∷ s) (c ∷ out)
cons-Replaced old new k c s out h (last z e n) = last z (ap (◌∷◌ c) e) (rw (append-nil s) h, n)
cons-Replaced old new k c s out h (found j p t r z e f n more) =
    found j (c ∷ p) t r z (ap (◌∷◌ c) e) (ap (◌∷◌ c) f)
      (ap (λ (x : Bytes). after_prefix old (c ∷ x)) (sym e) ∙ h, n) more

suc_times : (j a : ℕ) → (j + 1) * a ≡ j * a + a
suc_times j a = omega arith

Replaced-length :
    (old new : Bytes) (k : ℕ) (s out : Bytes)
    → Replaced old new k s out
    → length out + k * length old ≡ length s + k * length new
Replaced-length old new k s out (last z e n) = rw (z, e) (omega arith)
Replaced-length old new k s out (found j p t r z e f n more) =
    let ih = Replaced-length old new j t r more in
    let ls : length s ≡ length p + (length old + length t) =
      ap length e ∙ length-append p (old ++ t) ∙ ap (◌+◌ (length p)) (length-append old t) in
    let lo : length out ≡ length p + (length new + length r) =
      ap length f ∙ length-append p (new ++ r) ∙ ap (◌+◌ (length p)) (length-append new r) in
    let kn : k * length new ≡ j * length new + length new =
      ap (λ i. i * length new) z ∙ suc_times j (length new) in
    let ko : k * length old ≡ j * length old + length old =
      ap (λ i. i * length old) z ∙ suc_times j (length old) in
    omega (arith, kn, ko, ls, lo, ih)

times_le : (k a b : ℕ) → a ≤ b → k * a ≤ k * b
times_le zero a b h = omega arith
times_le (suc k) a b h = omega (arith, suc_times k a, suc_times k b, times_le k a b h, h)

-- The text does not get shorter by a text that is not shorter than the old one.
grows :
    (old new : Bytes) (k : ℕ) (s out : Bytes)
    → Replaced old new k s out
    → length old ≤ length new
    → length s ≤ length out
grows old new k s out r h =
    omega (arith, Replaced-length old new k s out r, times_le k (length old) (length new) h)

-- What a run comes to: the text stays if there is no room at first, and else all places are replaced if the
-- buffer holds both texts and the old one once more.
abbrev pub Outcome : Bool → ℕ → Bytes → Bytes → ℕ → Bytes → Run → Type 0
Outcome full size old new at s r =
    (r ≢ out_of_fuel)
    × (full ≡ true → r ≡ ends s)
    × (full ≡ false
        → (k : ℕ) × (out : Bytes) × Replaced old new k s out
          × (at + length s + length old < size
              → at + length out + length old < size
              → r ≡ ends out))

prepend-running : (s : Bytes) (r : Run) → r ≢ out_of_fuel → prepend s r ≢ out_of_fuel
prepend-running s out_of_fuel h = λ e. h refl
prepend-running s outside h = λ e. cc
prepend-running s (ends t) h = λ e. cc

ends_running : (s : Bytes) → ends s ≢ out_of_fuel
ends_running s e = cc

outside_running : outside ≢ out_of_fuel
outside_running e = cc

prepend-Outcome :
    (full : Bool) (size : ℕ) (old new : Bytes) (at c : ℕ) (s : Bytes) (r : Run)
    → after_prefix old (c ∷ s) ≡ none
    → Outcome full size old new (at + 1) s r
    → Outcome full size old new at (c ∷ s) (prepend (c ∷ []) r)
prepend-Outcome full size old new at c s r h (run, same, more) = (
  prepend-running (c ∷ []) r run,
  λ f. ap (prepend (c ∷ [])) (same f),
  λ f.
      let (k, out, rep, done) = more f in
      (
        k,
        c ∷ out,
        cons-Replaced old new k c s out h rep,
        λ p q. ap (prepend (c ∷ [])) (done (omega (arith, p)) (omega (arith, q))),
      ),
)

inside_room :
    (size : ℕ) (old new : Bytes) (at left : ℕ)
    → at + length old + left < size
    → at + length new + left < size
    → is_inside false size old new at left ≡ true
inside_room size old new at left h k = ground (arith, h, k)

found-Outcome :
    (full : Bool) (size : ℕ) (old new : Bytes) (at : ℕ) (s t : Bytes) (again : Run)
    → s ≡ old ++ t
    → Outcome full size old new (at + length new) t again
    → Outcome full size old new at s (
        if full
        then ends s
        else if is_inside full size old new at (length s)
        then prepend new again
        else outside)
found-Outcome true size old new at s t again e h =
    (ends_running s, λ f. refl, λ f. absurd (differ f))
  where
    differ : true ≡ false → ⊥
    differ f = cc
found-Outcome false size old new at s t again e (run, same, more) = (
  running (is_inside false size old new at (length s)),
  λ f. absurd (differ f),
  λ f.
      let (k, out, rep, done) = more refl in
      let split : length s ≡ length old + length t = ap length e ∙ length-append old t in
      let joined = length-append new out in
      (
        k + 1,
        new ++ out,
        found k [] t out refl e refl tt rep,
        λ p q. fits out done split joined (grows old new k t out rep) p q,
      ),
)
  where
    differ : false ≡ true → ⊥
    differ f = cc

    running : (b : Bool) → (if b then prepend new again else outside) ≢ out_of_fuel
    running true = prepend-running new again run
    running false = outside_running

    fits :
        (out : Bytes)
        → (at + length new + length t + length old < size
            → at + length new + length out + length old < size
            → again ≡ ends out)
        → length s ≡ length old + length t
        → length (new ++ out) ≡ length new + length out
        → (length old ≤ length new → length t ≤ length out)
        → at + length s + length old < size
        → at + length (new ++ out) + length old < size
        → (if is_inside false size old new at (length s) then prepend new again else outside)
          ≡ ends (new ++ out)
    fits out done split joined up p q = elim (Bool-cases (leb (length old) (length new))) [
      | inl more_ ↦
          let le : length old ≤ length new = ground arith in
          let longer = up le in
          let there : is_inside false size old new at (length s) ≡ true =
            inside_room size old new at (length s) (omega (arith, p))
              (omega (arith, p, q, split, joined, longer)) in
          rw there
            (ap (prepend new) (done (omega (arith, q, joined, longer)) (omega (arith, q, joined))))
      | inr less ↦
          let lt : length new < length old = ground arith in
          let there : is_inside false size old new at (length s) ≡ true =
            inside_room size old new at (length s) (omega (arith, p)) (omega (arith, p, lt)) in
          rw there
            (ap (prepend new) (done (omega (arith, p, split, lt)) (omega (arith, q, joined))))
    ]

module _ (full : Bool) (size : ℕ) (old new : Bytes) (some_old : 0 < length old) where
  at_match-Outcome :
      (at : ℕ) (again : ℕ → Bytes → Run) (s : Bytes)
      → ((at' : ℕ) (t : Bytes)
          → length t < length s
          → Outcome full size old new at' t (again at' t))
      → (ltb (length s) (length old) ≡ false)
      → (o : Option Bytes) → after_prefix old s ≡ o
      → Outcome full size old new at s (at_match full size old new at s again o)
  at_match-Outcome at again [] ih room o e =
      (let short : ltb 0 (length old) ≡ true = ground arith in absurd (wrong (sym short ∙ room)))
    where
      wrong : true ≡ false → ⊥
      wrong w = cc
  at_match-Outcome at again (c ∷ s) ih room none e =
      prepend-Outcome full size old new at c s (again (at + 1) s) e (ih (at + 1) s (omega arith))
  at_match-Outcome at again (c ∷ s) ih room (some t) e =
      let split : c ∷ s ≡ old ++ t = after_prefix-some old (c ∷ s) t e in
      found-Outcome full size old new at (c ∷ s) t (again (at + length new) t) split
        (ih (at + length new) t (omega (arith, some_old, ap length split, length-append old t)))

  repl_loop-Outcome :
      (fuel at : ℕ) (s : Bytes)
      → length s < fuel
      → Outcome full size old new at s (repl_loop full size old new fuel at s)
  unfolding repl_loop
  repl_loop-Outcome zero at s h = absurd (omega (arith, h))
  repl_loop-Outcome (suc fuel) at s h = elim (Bool-cases (ltb (length s) (length old))) [
    | inl short ↦
        let less : length s < length old = ground arith in
        rw short (
          ends_running s,
          λ f. refl,
          λ f. (0, s, last refl refl (NoMatch-short old s less), λ p q. refl),
        )
    | inr room ↦ rw room (
        at_match-Outcome at (repl_loop full size old new fuel) s
          (λ at' t less. repl_loop-Outcome fuel at' t (omega (arith, h, less))) room
          (after_prefix old s) refl)
  ]

-- The loop of `strnrepl` ends, for an old text that is not empty. If the room that is left at first is not enough for one
-- replacement, the text stays. Else there is the text in which all places, from the left on, are replaced, and which
-- grows by the difference for each, and if the buffer holds the text before as well as this one with the old
-- text and a NUL behind it, the run stays inside the buffer and makes this text. Where the buffer is
-- smaller, nothing is stated of what the run makes.
pub strnrepl-Replaced :
    (s : Bytes) (size : ℕ) (old new : Bytes)
    → 0 < length old
    → (strnrepl s size old new ≢ out_of_fuel)
      × (is_full size old new s ≡ true → strnrepl s size old new ≡ ends s)
      × (is_full size old new s ≡ false
          → (k : ℕ) × (out : Bytes) × Replaced old new k s out
            × (length out + k * length old ≡ length s + k * length new)
            × (length s + length old < size
                → length out + length old < size
                → strnrepl s size old new ≡ ends out))
unfolding strnrepl
strnrepl-Replaced s size old new h =
    let (run, same, more) =
      repl_loop-Outcome (is_full size old new s) size old new h (suc (length s)) 0 s
        (omega arith) in
    (
      run,
      same,
      λ f.
          let (k, out, r, done) = more f in
          (
            k,
            out,
            r,
            Replaced-length old new k s out r,
            λ p q. done (omega (arith, p)) (omega (arith, q)),
          ),
    )
