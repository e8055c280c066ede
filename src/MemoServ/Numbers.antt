-- ===== src/MemoServ/Numbers.antt =====
-- memoserv.c: the numbers of the memos, and the limit.
use k9_chatnet.Common.{
  arith, ℕ, suc, ◌+◌, ◌%◌, ◌^◌, ◌≤◌, ◌<◌, ◌≡◌, refl, sym, ap, subst, ◌∙◌, inl, inr, Bool, true,
  false, ◌&&◌, not, List, [], ◌∷◌, ◌++◌, Bytes, Option, none, some, ◌==◌, ltb, length,
  length-append, Bool-cases, All,
}
use k9_chatnet.Common.Int.{ℤ, pos, negsuc}
use k9_chatnet.MemoServ.{
  Memo, MemoInfo, last_number, number_from, add_memo, Sender, Post, Sent, disabled, defcon,
  please_wait, gets_no_memos, too_many_memos, Mail, is_full, is_zero_limit, send_found, send_text,
  kept_box, memo_send,
}
use k9_chatnet.MemoServ.Kept.{Distinct}
use k9_chatnet.Common.{if_cases}

-- The numbers rise, above `lo`, and 32 bits hold them.
abbrev pub Rising : ℕ → List Memo → Type 0
Rising lo [] = Unit
Rising lo (m ∷ ms) = (lo < m.number) × (m.number < 2 ^ 32) × Rising m.number ms

lift :
    (lo hi : ℕ) (ms : List Memo)
    → lo < hi
    → All (λ (m : Memo). hi < m.number) ms
    → All (λ (m : Memo). lo < m.number) ms
lift lo hi [] l h = tt
lift lo hi (m ∷ ms) l (h, hs) = (omega (arith, l, h), lift lo hi ms l hs)

Rising-All : (lo : ℕ) (ms : List Memo) → Rising lo ms → All (λ (m : Memo). lo < m.number) ms
Rising-All lo [] h = tt
Rising-All lo (m ∷ ms) (l, b, h) = (l, lift lo m.number ms l (Rising-All m.number ms h))

differ :
    (n : ℕ) (ms : List Memo)
    → All (λ (m : Memo). n < m.number) ms
    → All (λ (m : Memo). (m.number == n) ≡ false) ms
differ n [] h = tt
differ n (m ∷ ms) (h, hs) = (ground arith, differ n ms hs)

pub Rising-Distinct : (lo : ℕ) (ms : List Memo) → Rising lo ms → Distinct ms
Rising-Distinct lo [] h = tt
Rising-Distinct lo (m ∷ ms) (l, b, h) =
    (differ m.number ms (Rising-All m.number ms h), Rising-Distinct m.number ms h)

pub number_from-Rising :
    (i : ℕ) (ms : List Memo) → i + length ms < 2 ^ 32 → Rising i (number_from i ms)
unfolding number_from
number_from-Rising i [] h = tt
number_from-Rising i (m ∷ ms) h =
    (omega arith, omega (arith, h), number_from-Rising (i + 1) ms (omega (arith, h)))

pub length-number_from : (i : ℕ) (ms : List Memo) → length (number_from i ms) ≡ length ms
unfolding number_from
length-number_from i [] = refl
length-number_from i (m ∷ ms) = ap suc (length-number_from (i + 1) ms)

-- A number one more than the last at the end.
snoc-Rising :
    (lo : ℕ) (n : Memo) (ms : List Memo) (m : Memo)
    → Rising lo (n ∷ ms)
    → m.number ≡ last_number (n ∷ ms) + 1
    → m.number < 2 ^ 32
    → Rising lo ((n ∷ ms) ++ m ∷ [])
snoc-Rising lo n [] m (l, b, h) e k = (l, b, (omega (arith, e), k, tt))
snoc-Rising lo n (o ∷ ms) m (l, b, h) e k = (l, b, snoc-Rising n.number o ms m h e k)

last-small :
    (lo : ℕ) (n : Memo) (ms : List Memo) → Rising lo (n ∷ ms) → last_number (n ∷ ms) < 2 ^ 32
last-small lo n [] (l, b, h) = b
last-small lo n (o ∷ ms) (l, b, h) = last-small n.number o ms h

wrap_fits : (a : ℕ) → a < 2 ^ 32 → ((a + 1) % 2 ^ 32 == 0) ≡ false → (a + 1) % 2 ^ 32 ≡ a + 1
wrap_fits a h e = ground arith

pub add_memo-Rising :
    (m : Memo) (ms : List Memo)
    → Rising 0 ms
    → length ms < 32767
    → Rising 0 (add_memo m ms) × (length (add_memo m ms) ≡ length ms + 1)
unfolding add_memo
add_memo-Rising m [] h k = ((omega arith, omega arith, tt), omega arith)
add_memo-Rising m (n ∷ ms) h k =
    let num = (last_number (n ∷ ms) + 1) % 2 ^ 32 in
    let all : List Memo = (n ∷ ms) ++ record m { number = num } ∷ [] in
    let one_more : length all ≡ length (n ∷ ms) + 1 =
      length-append (n ∷ ms) (record m { number = num } ∷ []) in
    elim (Bool-cases (num == 0)) [
      | inl wrapped ↦ rw wrapped (
        number_from-Rising 0 all (omega (arith, one_more, k)),
        length-number_from 0 all ∙ one_more,
      )
      | inr fits ↦ rw fits (
        snoc-Rising 0 n ms (record m { number = num }) h
            (wrap_fits (last_number (n ∷ ms)) (last-small 0 n ms h) fits) (omega arith),
        one_more,
      )
    ]

-- There are no more memos than the limit allows.
abbrev pub WithinLimit : ℤ → ℕ → Type 0
WithinLimit (pos n) count = count ≤ n
WithinLimit (negsuc n) count = Unit

abbrev pub IsBox : MemoInfo → Type 0
IsBox mi = Rising 0 mi.memos × WithinLimit mi.memomax (length mi.memos)

below_limit :
    (memomax : ℤ) (count : ℕ)
    → WithinLimit memomax count
    → is_zero_limit memomax ≡ false
    → is_full memomax count ≡ false
    → WithinLimit memomax (count + 1)
below_limit (pos n) count h e f = ground arith
below_limit (negsuc n) count h e f = tt

-- What is made of a box.
abbrev pub StaysBox : MemoInfo → Mail → Type 0
StaysBox mi out =
    (after : MemoInfo) × (out.box ≡ some after) × (after.memomax ≡ mi.memomax) × IsBox after

module _ (p : Post) (u : Sender) (z : ℕ) (ordinary : u.is_servadmin ≡ false) where
  plain_and : (b : Bool) → (b && not u.is_servadmin) ≡ false → b ≡ false
  plain_and true e = sym (ap not ordinary) ∙ e
  plain_and false e = refl

  send_found-StaysBox :
      (text : Bytes) (mi : MemoInfo)
      → IsBox mi
      → length mi.memos < 32767
      → StaysBox mi (send_found p u z text mi)
  send_found-StaysBox text mi h k =
      let m : Memo = record {
        number = 0;
        is_unread = true;
        time = p.now;
        sender = u.display;
        text = text;
      } in
      let new : MemoInfo = record mi { memos = add_memo m mi.memos } in
      let kept : (r : Sent) (t : ℕ)
          → StaysBox mi (record { result = r; lastmemosend = t; box = some mi }) =
        λ r t. (mi, refl, refl, h) in
      if_cases (StaysBox mi)
        ((not (z == 2) && ltb 0 p.delay)
          && (ltb p.now (u.lastmemosend + p.delay) && not u.is_servadmin))
        _ _ (λ e. kept please_wait p.now)
        (λ e.
          if_cases (StaysBox mi) (is_zero_limit mi.memomax && not u.is_servadmin) _ _
            (λ e. kept gets_no_memos u.lastmemosend)
            (λ some_room.
              if_cases (StaysBox mi) (is_full mi.memomax (length mi.memos) && not u.is_servadmin) _
                _ (λ e. kept too_many_memos u.lastmemosend)
                (λ room.
                  let (rising, one_more) = add_memo-Rising m mi.memos h.0 k in
                  (
                    new,
                    refl,
                    refl,
                    (
                      rising,
                      subst (WithinLimit mi.memomax) (sym one_more) (
                          below_limit mi.memomax (length mi.memos) h.1
                            (plain_and (is_zero_limit mi.memomax) some_room)
                            (plain_and (is_full mi.memomax (length mi.memos)) room)),
                    ),
                  ))))

  send_text-StaysBox :
      (text : Option Bytes) (mi : MemoInfo)
      → IsBox mi
      → length mi.memos < 32767
      → StaysBox mi (send_text p u z text (some mi))
  send_text-StaysBox none mi h k = (mi, refl, refl, h)
  send_text-StaysBox (some text) mi h k =
      if_cases (StaysBox mi) u.is_recognized _ _ (λ e. send_found-StaysBox text mi h k)
        (λ e. (mi, refl, refl, h))

  -- A memo from a user who is no services administrator, whether it is stored or refused, leaves the memos of the receiver with
  -- numbers that rise from 1 on, also where 32 bits wrap, and with no more memos than the limit.
  pub memo_send-StaysBox :
      (text : Option Bytes) (mi : MemoInfo)
      → IsBox mi
      → length mi.memos < 32767
      → StaysBox mi (memo_send p u z text (some mi))
  unfolding memo_send
  memo_send-StaysBox text mi h k =
      let kept : (r : Sent) → StaysBox mi (kept_box r u (some mi)) = λ r. (mi, refl, refl, h) in
      if_cases (StaysBox mi) p.readonly _ _ (λ e. kept disabled)
        (λ e.
          if_cases (StaysBox mi) p.is_defcon _ _ (λ e. kept defcon)
            (λ e. send_text-StaysBox text mi h k))
