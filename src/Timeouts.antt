-- ===== src/Timeouts.antt =====
-- timeout.c. A pointer to a timeout is its number `id`. Of what the code of a timeout does to the list, its
-- calls of `add_timeout` are modelled, and not those of `del_timeout`.
use k9_chatnet.Common.{
  ℕ, ◌+◌, ◌≡◌, refl, sym, ap, ◌∙◌, inl, inr, Bool, ◌||◌, List, [], ◌∷◌, ◌++◌, ltb, ◌==◌,
  if◌then◌else◌, append_assoc, append-nil, Bool-cases,
}

pub record Timeout : Type 0 where
  pub id : ℕ
  pub settime : ℕ
  pub timeout : ℕ
  pub repeat : Bool

-- The number is that of the memory that the allocation returns.
unfoldable pub add_timeout : ℕ → ℕ → ℕ → Bool → List Timeout → List Timeout
add_timeout id now delay repeat l =
    record { id = id; settime = now; timeout = now + delay; repeat = repeat } ∷ l

unfoldable pub del_timeout : ℕ → List Timeout → List Timeout
del_timeout id [] = []
del_timeout id (e ∷ es) = if e.id == id then es else e ∷ del_timeout id es

unfoldable pub repeats : Timeout → Bool
repeats e = e.repeat

-- The list that is left and the timeouts
-- whose code has run.
pub record Checked : Type 0 where
  pub timeouts : List Timeout
  pub ran : List Timeout

-- The arguments of a call of `add_timeout`.
pub record Call : Type 0 where
  pub id : ℕ
  pub delay : ℕ
  pub repeat : Bool

-- The calls that the code of a timeout makes, one after the other.
unfoldable pub run_calls : ℕ → List Call → List Timeout → List Timeout
run_calls t [] l = l
run_calls t (a ∷ more) l = run_calls t more (add_timeout a.id t a.delay a.repeat l)

-- The timeout that a call makes.
abbrev pub made : ℕ → Call → Timeout
made t a = record { id = a.id; settime = t; timeout = t + a.delay; repeat = a.repeat }

-- The timeouts of the calls, the last one first.
pub newest_first : ℕ → List Call → List Timeout
newest_first t [] = []
newest_first t (a ∷ more) = newest_first t more ++ made t a ∷ []

run_calls-newest_first :
    (t : ℕ) (cs : List Call) (l : List Timeout) → run_calls t cs l ≡ newest_first t cs ++ l
unfolding run_calls newest_first add_timeout
run_calls-newest_first t [] l = refl
run_calls-newest_first t (a ∷ more) l =
    run_calls-newest_first t more (made t a ∷ l)
    ∙ sym (append_assoc (newest_first t more) (made t a ∷ []) l)

module _ (code : Timeout → List Call) where
  -- The loop: `front` stands before the entry `to`, and `ran` has run.
  unfoldable pub check_loop : ℕ → List Timeout → List Timeout → List Timeout → Checked
  check_loop t front [] ran = record { timeouts = front; ran = ran }
  check_loop t front (e ∷ es) ran =
      if ltb t e.timeout
      then check_loop t (front ++ e ∷ []) es ran
      else if repeats e
      then check_loop t (run_calls t (code e) (front ++ e ∷ [])) es (ran ++ e ∷ [])
      else check_loop t (run_calls t (code e) front) es (ran ++ e ∷ [])

  unfoldable pub check_timeouts : ℕ → List Timeout → Checked
  check_timeouts t timeouts = check_loop t [] timeouts []

  -- The timeouts that are due.
  pub due : ℕ → List Timeout → List Timeout
  due t [] = []
  due t (e ∷ es) = if ltb t e.timeout then due t es else e ∷ due t es

  -- Those that stay: the ones that are not due, and the repeating ones.
  pub staying : ℕ → List Timeout → List Timeout
  staying t [] = []
  staying t (e ∷ es) = if ltb t e.timeout || repeats e then e ∷ staying t es else staying t es

  -- What the code of the due ones adds, each in front of what the earlier ones have added.
  pub added : ℕ → List Timeout → List Timeout → List Timeout
  added t front [] = front
  added t front (e ∷ es) =
      if ltb t e.timeout then added t front es else added t (newest_first t (code e) ++ front) es

  check_loop-due :
      (t : ℕ) (front kept es ran : List Timeout)
      → check_loop t (front ++ kept) es ran
        ≡ record { timeouts = added t front es ++ (kept ++ staying t es); ran = ran ++ due t es }
  unfolding check_loop added staying due
  check_loop-due t front kept [] ran =
      λ k. record { timeouts = front ++ sym (append-nil kept) k; ran = sym (append-nil ran) k }
  check_loop-due t front kept (e ∷ es) ran =
      let more : (kept ++ e ∷ []) ++ staying t es ≡ kept ++ e ∷ staying t es =
        append_assoc kept (e ∷ []) (staying t es) in
      let further : (ran ++ e ∷ []) ++ due t es ≡ ran ++ e ∷ due t es =
        append_assoc ran (e ∷ []) (due t es) in
      let new = newest_first t (code e) in
      let in_front : run_calls t (code e) (front ++ kept) ≡ (new ++ front) ++ kept =
        run_calls-newest_first t (code e) (front ++ kept) ∙ sym (append_assoc new front kept) in
      let whole : run_calls t (code e) ((front ++ kept) ++ e ∷ [])
          ≡ (new ++ front) ++ (kept ++ e ∷ []) =
        ap (run_calls t (code e)) (append_assoc front kept (e ∷ []))
        ∙ run_calls-newest_first t (code e) (front ++ (kept ++ e ∷ []))
        ∙ sym (append_assoc new front (kept ++ e ∷ [])) in
      elim (Bool-cases (ltb t e.timeout)) [
        | inl early ↦ rw early (
            ap (λ f. check_loop t f es ran) (append_assoc front kept (e ∷ []))
            ∙ check_loop-due t front (kept ++ e ∷ []) es ran
            ∙ (λ k. record { timeouts = added t front es ++ more k; ran = ran ++ due t es }))
        | inr late ↦ elim (Bool-cases (repeats e)) [
          | inl again ↦
              rw (late, again)
                (ap (λ f. check_loop t f es (ran ++ e ∷ [])) whole
                  ∙ check_loop-due t (new ++ front) (kept ++ e ∷ []) es (ran ++ e ∷ [])
                  ∙ (λ k. record {
                    timeouts = added t (new ++ front) es ++ more k;
                    ran = further k;
                  }))
          | inr once ↦
              rw (late, once)
                (ap (λ f. check_loop t f es (ran ++ e ∷ [])) in_front
                  ∙ check_loop-due t (new ++ front) kept es (ran ++ e ∷ [])
                  ∙ (λ k. record {
                    timeouts = added t (new ++ front) es ++ (kept ++ staying t es);
                    ran = further k;
                  }))
        ]
      ]

  -- Where the code of timeouts does no more to the list than to call `add_timeout`, exactly the timeouts that are due
  -- are run, in the list's order, and none of those that their code adds; the added ones come to stand in front,
  -- the newest first, and behind them those that are not due or that repeat, in their order.
  pub check_timeouts-due :
      (t : ℕ) (timeouts : List Timeout)
      → check_timeouts t timeouts
        ≡ record { timeouts = added t [] timeouts ++ staying t timeouts; ran = due t timeouts }
  unfolding check_timeouts
  check_timeouts-due t timeouts = check_loop-due t [] [] timeouts []
