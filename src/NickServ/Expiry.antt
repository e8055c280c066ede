-- ===== src/NickServ/Expiry.antt =====
-- nickserv.c `expire_requests`: what is left of each list.
use k9_chatnet.Common.{
  arith, ℕ, zero, suc, ◌-◌, ◌≤◌, ◌<◌, ◌≡◌, refl, sym, ap, ◌∙◌, inl, inr, true, false, List, [], ◌∷◌,
  ◌++◌, ◌==◌, ==_iff, ==-refl, leb, if◌then◌else◌, Bool-cases, All,
}
use k9_chatnet.NickServ.{
  NickRequest, nick_hash, delnickrequest, is_expired, expire_list, expire_from, expire_requests,
}

-- The requests behind the last one that has expired; all if none has.
pub behind_expired : ℕ → ℕ → List NickRequest → List NickRequest → List NickRequest
behind_expired expire now [] sofar = sofar
behind_expired expire now (nr ∷ next) sofar =
    behind_expired expire now next (if is_expired expire now nr then next else sofar)

-- The requests of a list have its hash value.
abbrev pub HasHash : ℕ → List NickRequest → Type 0
HasHash i l = All (λ (nr : NickRequest). nick_hash nr.nick ≡ i) l

expire_list-behind :
    (expire now i : ℕ) (l : List NickRequest) (nrlists : ℕ → List NickRequest)
    → HasHash i l
    → expire_list expire now l nrlists i ≡ behind_expired expire now l (nrlists i)
unfolding expire_list behind_expired delnickrequest
expire_list-behind expire now i [] nrlists h = refl
expire_list-behind expire now i (nr ∷ next) nrlists (h, hs) =
    elim (Bool-cases (is_expired expire now nr)) [
      | inr young ↦ rw young (expire_list-behind expire now i next nrlists hs)
      | inl old ↦ rw old (
          expire_list-behind expire now i next (delnickrequest nr next nrlists) hs
          ∙ ap (behind_expired expire now next) (rw (h, ==-refl i) refl))
    ]

expire_list-other :
    (expire now i j : ℕ) (l : List NickRequest) (nrlists : ℕ → List NickRequest)
    → HasHash i l
    → (j == i) ≡ false
    → expire_list expire now l nrlists j ≡ nrlists j
unfolding expire_list delnickrequest
expire_list-other expire now i j [] nrlists h e = refl
expire_list-other expire now i j (nr ∷ next) nrlists (h, hs) e =
    elim (Bool-cases (is_expired expire now nr)) [
      | inr young ↦ rw young (expire_list-other expire now i j next nrlists hs e)
      | inl old ↦ rw old (
          expire_list-other expire now i j next (delnickrequest nr next nrlists) hs e
          ∙ rw (h, e) refl)
    ]

-- Every request stands in the list of its hash value.
abbrev pub IsHashed : (ℕ → List NickRequest) → Type 0
IsHashed nrlists = (i : ℕ) → HasHash i (nrlists i)

expire_list-IsHashed :
    (expire now i : ℕ) (l : List NickRequest) (nrlists : ℕ → List NickRequest)
    → HasHash i l
    → IsHashed nrlists
    → IsHashed (expire_list expire now l nrlists)
unfolding expire_list delnickrequest
expire_list-IsHashed expire now i [] nrlists h hashed = hashed
expire_list-IsHashed expire now i (nr ∷ next) nrlists (h, hs) hashed =
    elim (Bool-cases (is_expired expire now nr)) [
      | inr young ↦ rw young (expire_list-IsHashed expire now i next nrlists hs hashed)
      | inl old ↦ rw old (
          expire_list-IsHashed expire now i next (delnickrequest nr next nrlists) hs (λ k.
            elim (Bool-cases (k == nick_hash nr.nick)) [
              | inl own ↦ rw own (rw⁻¹ (sym ((==_iff k (nick_hash nr.nick)).0 own ∙ h)) hs)
              | inr other ↦ rw other (hashed k)
            ]))
    ]

expire_from-behind :
    (expire now n i : ℕ) (nrlists : ℕ → List NickRequest)
    → n ≤ 1024
    → i < 1024
    → IsHashed nrlists
    → expire_from expire now n nrlists i
      ≡ (if leb (1024 - n) i then behind_expired expire now (nrlists i) (nrlists i) else nrlists i)
unfolding expire_from
expire_from-behind expire now zero i nrlists h l hashed =
    let e : leb (1024 - 0) i ≡ false = ground arith in rw e refl
expire_from-behind expire now (suc n) i nrlists h l hashed =
    let k = 1023 - n in
    let after = expire_list expire now (nrlists k) nrlists in
    expire_from-behind expire now n i after (omega (arith, h)) l
      (expire_list-IsHashed expire now k (nrlists k) nrlists (hashed k) hashed)
    ∙ elim (Bool-cases (i == k)) [
      | inl here ↦
          let e : leb (1024 - n) i ≡ false = ground arith in
          let f : leb (1024 - suc n) i ≡ true = ground arith in
          rw (e, f)
            (rw⁻¹ (sym ((==_iff i k).0 here))
              (expire_list-behind expire now k (nrlists k) nrlists (hashed k)))
      | inr there ↦
          let e : leb (1024 - n) i ≡ leb (1024 - suc n) i = ground arith in
          rw (e, expire_list-other expire now k i (nrlists k) nrlists (hashed k) there) refl
    ]

-- After `expire_requests` each of the 1024 lists holds just the requests behind the last one that had expired, so that
-- those in front of it are lost although they have not expired; a list without an expired request stays.
pub expire_requests-behind :
    (expire now i : ℕ) (nrlists : ℕ → List NickRequest)
    → i < 1024
    → IsHashed nrlists
    → expire_requests expire now nrlists i ≡ behind_expired expire now (nrlists i) (nrlists i)
unfolding expire_requests
expire_requests-behind expire now i nrlists l hashed =
    let e : leb (1024 - 1024) i ≡ true = ground arith in
    expire_from-behind expire now 1024 i nrlists (omega arith) l hashed ∙ rw e refl

-- Behind an expired request at the end of a list nothing is left.
pub behind_expired-last :
    (expire now : ℕ) (front sofar : List NickRequest) (last : NickRequest)
    → is_expired expire now last ≡ true
    → behind_expired expire now (front ++ last ∷ []) sofar ≡ []
unfolding behind_expired
behind_expired-last expire now [] sofar last h = rw h refl
behind_expired-last expire now (nr ∷ front) sofar last h =
    behind_expired-last expire now front
      (if is_expired expire now nr then front ++ last ∷ [] else sofar) last h
