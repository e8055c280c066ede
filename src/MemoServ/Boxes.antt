-- ===== src/MemoServ/Boxes.antt =====
-- memoserv.c: the memos of a receiver through any history of memos, cancellations and deletions.
use k9_chatnet.Common.{
  arith, ℕ, ◌^◌, ◌≤◌, ◌<◌, ◌≡◌, sym, subst, ◌∙◌, inl, inr, Bool, true, false, List, [], ◌∷◌, Bytes,
  Option, none, some, ◌==◌, length, peek, Bool-cases, if_cases, if◌then◌else◌,
}
use k9_chatnet.Common.Int.{ℤ, pos, negsuc}
use k9_chatnet.Text.Case.{same_text}
use k9_chatnet.Text.Number.{Progress, process_numlist, is_digit}
use k9_chatnet.Text.Number.Kept.{Ends, process_numlist-keeps}
use k9_chatnet.MemoServ.{
  Memo, MemoInfo, Sender, Post, delmemo, last_number, memo_send, last_unread, cancel_found,
  do_cancel, Deletion, after_delmemo, del_memo_callback, told_of, del_memos, do_del,
}
use k9_chatnet.MemoServ.Deleting.{noted-memos}
use k9_chatnet.MemoServ.Numbers.{
  Rising, WithinLimit, IsBox, memo_send-StaysBox, number_from-Rising, length-number_from,
}

lower_Rising : (lo hi : ℕ) (ms : List Memo) → lo < hi → Rising hi ms → Rising lo ms
lower_Rising lo hi [] l h = tt
lower_Rising lo hi (m ∷ ms) l (a, b, h) = (omega (arith, l, a), b, h)

delmemo-Rising : (num lo : ℕ) (ms : List Memo) → Rising lo ms → Rising lo (delmemo num ms).0
unfolding delmemo
delmemo-Rising num lo [] h = tt
delmemo-Rising num lo (m ∷ ms) (a, b, h) = elim (Bool-cases (m.number == num)) [
  | inl hit ↦ rw hit (lower_Rising lo m.number ms a h)
  | inr miss ↦ rw miss (a, b, delmemo-Rising num m.number ms h)
]

length-delmemo : (num : ℕ) (ms : List Memo) → length (delmemo num ms).0 ≤ length ms
unfolding delmemo
length-delmemo num [] = omega arith
length-delmemo num (m ∷ ms) = elim (Bool-cases (m.number == num)) [
  | inl hit ↦ rw hit (omega arith)
  | inr miss ↦ let less = length-delmemo num ms in rw miss (omega (arith, less))
]

-- Fewer memos are within the limit too.
fewer : (memomax : ℤ) (a b : ℕ) → a ≤ b → WithinLimit memomax b → WithinLimit memomax a
fewer (pos n) a b l h = omega (arith, l, h)
fewer (negsuc n) a b l h = tt

after_delmemo-length :
    (k num : ℕ) (d : Deletion) (out : List Memo × Bool)
    → length out.0 ≤ k
    → length d.memos ≤ k
    → length (after_delmemo num out d).0.memos ≤ k
after_delmemo-length k num d (ms, true) l h =
    subst (λ (r : List Memo). length r ≤ k) (sym (noted-memos num ms d)) l
after_delmemo-length k num d (ms, false) l h = h

told_of-length :
    (ms : List Memo) (o : Option (Progress Deletion))
    → Ends (λ (d : Deletion). length d.memos ≤ length ms) o
    → length (told_of ms o).0 ≤ length ms
told_of-length ms none h = omega arith
told_of-length ms (some p) h = h

length-del_memos : (numstr : Bytes) (ms : List Memo) → length (del_memos numstr ms).0 ≤ length ms
unfolding del_memos del_memo_callback
length-del_memos numstr ms =
    let Q : List Memo × List (Option ℕ × ℕ) → Type 0 = λ r. length r.0 ≤ length ms in
    let d : Deletion = record { memos = ms; last = none; last0 = none; ranges = [] } in
    let last = last_number ms in
    let one : List Memo × List (Option ℕ × ℕ) = ((delmemo last ms).0, (some last, last) ∷ []) in
    let word = if same_text numstr (b'L' ∷ b'A' ∷ b'S' ∷ b'T' ∷ []) then one else ([], []) in
    if_cases Q (is_digit (peek numstr)) (told_of ms (process_numlist del_memo_callback d numstr))
      word
      (λ e. told_of-length ms (process_numlist del_memo_callback d numstr) (
        process_numlist-keeps del_memo_callback (λ (d : Deletion). length d.memos ≤ length ms)
          (λ d num h.
            after_delmemo-length (length ms) num d (delmemo num d.memos)
              (let less = length-delmemo num d.memos in omega (arith, less, h)) h)
          d numstr (omega arith)))
      (λ e.
        if_cases Q (same_text numstr (b'L' ∷ b'A' ∷ b'S' ∷ b'T' ∷ [])) one ([], [])
          (λ f. length-delmemo last ms) (λ f. omega arith))

do_del-IsBox :
    (numstr : Bytes) (mi : MemoInfo)
    → IsBox mi
    → length mi.memos < 2 ^ 32
    → IsBox (record mi { memos = (do_del numstr mi.memos).0 })
unfolding do_del
do_del-IsBox numstr mi (h, w) small = go mi.memos w small
  where
    go :
        (ms : List Memo)
        → WithinLimit mi.memomax (length ms)
        → length ms < 2 ^ 32
        → Rising 0 (do_del numstr ms).0 × WithinLimit mi.memomax (length (do_del numstr ms).0)
    go [] w small = (tt, w)
    go (m ∷ ms) w small =
        let less = length-del_memos numstr (m ∷ ms) in
        let left = (del_memos numstr (m ∷ ms)).0 in
        (
          number_from-Rising 0 left (omega (arith, less, small)),
          subst (WithinLimit mi.memomax) (sym (length-number_from 0 left))
              (fewer mi.memomax (length left) (length (m ∷ ms)) less w),
        )

cancel_found-IsBox :
    (o : Option ℕ) (mi : MemoInfo)
    → IsBox mi
    → IsBox (record mi { memos = (cancel_found o mi.memos).0 })
cancel_found-IsBox none mi h = h
cancel_found-IsBox (some n) mi (h, w) = (
  delmemo-Rising n 0 mi.memos h,
  fewer mi.memomax (length (delmemo n mi.memos).0) (length mi.memos) (length-delmemo n mi.memos) w,
)

-- What a user who is no services administrator does to the memos, of which an `int16` is the count.
pub data Step (mi : MemoInfo) : MemoInfo → Type 0 where
  sent :
      (p : Post) (u : Sender) (z : ℕ) (text : Option Bytes) (after : MemoInfo)
      → u.is_servadmin ≡ false
      → length mi.memos < 32767
      → (memo_send p u z text (some mi)).box ≡ some after
      → Step mi after
  cancelled : (display : Bytes) → Step mi (record mi { memos = (do_cancel display mi.memos).0 })
  deleted :
      (numstr : Bytes)
      → length mi.memos < 2 ^ 15
      → Step mi (record mi { memos = (do_del numstr mi.memos).0 })

pub data Reached (mi : MemoInfo) : MemoInfo → Type 0 where
  start : Reached mi mi
  next : (before after : MemoInfo) → Reached mi before → Step before after → Reached mi after

some_inj : {A : Type 0} (a b : A) → some a ≡ some b → a ≡ b
some_inj a b e = cc

step-IsBox : (mi after : MemoInfo) → Step mi after → IsBox mi → IsBox after
unfolding do_cancel
step-IsBox mi _ (sent p u z text after plain small e) h =
    let (got, same, limit, box) = memo_send-StaysBox p u z plain text mi h small in
    subst IsBox (some_inj got after (sym same ∙ e)) box
step-IsBox mi _ (cancelled display) h = cancel_found-IsBox (last_unread display mi.memos) mi h
step-IsBox mi _ (deleted numstr small) h = do_del-IsBox numstr mi h (omega (arith, small))

-- After any history of memos that users who are no services administrators send, cancel and delete, where fewer than 32767 are
-- there when one is sent, the numbers of a receiver's memos rise from 1 on, also where 32 bits wrap, and there
-- are no more memos than the limit.
pub Reached-IsBox : (mi after : MemoInfo) → Reached mi after → IsBox mi → IsBox after
Reached-IsBox mi _ start h = h
Reached-IsBox mi _ (next before after r step) h =
    step-IsBox before after step (Reached-IsBox mi before r h)
