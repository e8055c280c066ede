-- ===== src/MemoServ.antt =====
-- memoserv.c: the memos of a nick or a channel. What the users are told is left out, but for the
-- numbers of the memos that were deleted. A sender's name fits the memo, and the count of the memos,
-- an `int16` in the program, is the length of their list.

pub mod Kept
pub mod Deleting
pub mod Numbers
pub mod Boxes
use k9_chatnet.Common.{
  ℕ, zero, suc, ◌+◌, ◌%◌, ◌^◌, Bool, true, false, ◌&&◌, not, List, [], ◌∷◌, ◌++◌, Bytes, Option,
  none, some, ◌==◌, ltb, leb, if◌then◌else◌, length, peek,
}
use k9_chatnet.Common.Int.{ℤ, pos, negsuc}
use k9_chatnet.Text.Number.{Callback, Progress, process_numlist, is_digit}
use k9_chatnet.Text.Case.{same_text}

pub record Memo : Type 0 where
  pub number : ℕ
  pub is_unread : Bool
  pub time : ℕ
  pub sender : Bytes
  pub text : Bytes

-- `memomax` is negative where there is no limit.
pub record MemoInfo : Type 0 where
  pub memos : List Memo
  pub memomax : ℤ

-- The first memo of the number is taken out; whether there was one.
unfoldable pub delmemo : ℕ → List Memo → List Memo × Bool
delmemo num [] = ([], false)
delmemo num (m ∷ ms) =
    let (rest, found) = delmemo num ms in if m.number == num then (ms, true) else (m ∷ rest, found)

abbrev pub last_number : List Memo → ℕ
last_number [] = 0
last_number (m ∷ []) = m.number
last_number (m ∷ (n ∷ ms)) = last_number (n ∷ ms)

-- All memos are numbered anew.
unfoldable pub number_from : ℕ → List Memo → List Memo
number_from i [] = []
number_from i (m ∷ ms) = record m { number = i + 1 } ∷ number_from (i + 1) ms

-- The new memo's number is one more than the last one's, in 32 bits; at the wrap all are numbered anew.
unfoldable pub add_memo : Memo → List Memo → List Memo
add_memo m [] = record m { number = 1 } ∷ []
add_memo m (n ∷ ms) =
    let num = (last_number (n ∷ ms) + 1) % 2 ^ 32 in
    let all = (n ∷ ms) ++ record m { number = num } ∷ [] in
    if num == 0 then number_from 0 all else all

-- Who sends, and what `memo_send` asks of the rest of the program.
pub record Sender : Type 0 where
  pub display : Bytes
  pub is_servadmin : Bool
  pub is_recognized : Bool
  pub lastmemosend : ℕ

pub record Post : Type 0 where
  pub readonly : Bool
  pub is_defcon : Bool
  pub delay : ℕ
  pub now : ℕ

pub data Sent : Type 0 where
  disabled : Sent
  defcon : Sent
  syntax : Sent
  identify : Sent
  not_registered : Sent
  please_wait : Sent
  gets_no_memos : Sent
  too_many_memos : Sent
  stored : Sent

-- The user's time of the last memo, and the memos of the receiver.
pub record Mail : Type 0 where
  pub result : Sent
  pub lastmemosend : ℕ
  pub box : Option MemoInfo

abbrev pub is_zero_limit : ℤ → Bool
is_zero_limit (pos n) = n == 0
is_zero_limit (negsuc n) = false

abbrev pub is_full : ℤ → ℕ → Bool
is_full (pos n) count = ltb 0 n && leb n count
is_full (negsuc n) count = false

abbrev pub send_found : Post → Sender → ℕ → Bytes → MemoInfo → Mail
send_found p u z text mi =
    if (not (z == 2) && ltb 0 p.delay)
      && (ltb p.now (u.lastmemosend + p.delay) && not u.is_servadmin)
    then record { result = please_wait; lastmemosend = p.now; box = some mi }
    else if is_zero_limit mi.memomax && not u.is_servadmin
    then record { result = gets_no_memos; lastmemosend = u.lastmemosend; box = some mi }
    else if is_full mi.memomax (length mi.memos) && not u.is_servadmin
    then record { result = too_many_memos; lastmemosend = u.lastmemosend; box = some mi }
    else record {
      result = stored;
      lastmemosend = p.now;
      box = some (record mi {
        memos =
            add_memo
              (record {
                number = 0;
                is_unread = true;
                time = p.now;
                sender = u.display;
                text = text;
              })
              mi.memos;
      });
    }

abbrev pub send_box : Post → Sender → ℕ → Bytes → Option MemoInfo → Mail
send_box p u z text none = record {
  result = not_registered;
  lastmemosend = u.lastmemosend;
  box = none;
}
send_box p u z text (some mi) = send_found p u z text mi

abbrev pub kept_box : Sent → Sender → Option MemoInfo → Mail
kept_box r u box = record { result = r; lastmemosend = u.lastmemosend; box = box }

abbrev pub send_text : Post → Sender → ℕ → Option Bytes → Option MemoInfo → Mail
send_text p u z none box = kept_box syntax u box
send_text p u z (some text) box =
    if u.is_recognized then send_box p u z text box else kept_box identify u box

-- `box` is what `getmemoinfo` finds for the name.
unfoldable pub memo_send : Post → Sender → ℕ → Option Bytes → Option MemoInfo → Mail
memo_send p u z text box =
    if p.readonly
    then kept_box disabled u box
    else if p.is_defcon
    then kept_box defcon u box
    else send_text p u z text box

-- The last unread memo of the sender is taken out.
unfoldable pub last_unread : Bytes → List Memo → Option ℕ
last_unread display [] = none
last_unread display (m ∷ ms) = elim (last_unread display ms) [
  | some n ↦ some n
  | none ↦ if m.is_unread && same_text m.sender display then some m.number else none
]

abbrev pub cancel_found : Option ℕ → List Memo → List Memo × Bool
cancel_found none ms = (ms, false)
cancel_found (some n) ms = ((delmemo n ms).0, true)

unfoldable pub do_cancel : Bytes → List Memo → List Memo × Bool
do_cancel display ms = cancel_found (last_unread display ms) ms

-- The state of `del_memo_callback`: `none` is -1, and `ranges` stands for the text in `buf`.
pub record Deletion : Type 0 where
  pub memos : List Memo
  pub last : Option ℕ
  pub last0 : Option ℕ
  pub ranges : List (Option ℕ × ℕ)

abbrev pub follows : ℕ → Option ℕ → Bool
follows num none = num == 0
follows num (some last) = num == last + 1

abbrev pub with_range : Option ℕ → Option ℕ → List (Option ℕ × ℕ) → List (Option ℕ × ℕ)
with_range none last0 ranges = ranges
with_range (some last) last0 ranges = ranges ++ (last0, last) ∷ []

abbrev pub noted : ℕ → List Memo → Deletion → Deletion
noted num ms d = if follows num d.last then record d { memos = ms; last = some num } else record {
  memos = ms;
  last = some num;
  last0 = some num;
  ranges = with_range d.last d.last0 d.ranges;
}

abbrev pub after_delmemo : ℕ → List Memo × Bool → Deletion → Deletion × ℤ
after_delmemo num (ms, true) d = (noted num ms d, pos 1)
after_delmemo num (ms, false) d = (d, pos 0)

unfoldable pub del_memo_callback : Callback Deletion
del_memo_callback d num = after_delmemo num (delmemo num d.memos) d

-- What is left, and the numbers that the user is told were deleted.
abbrev pub told : Progress Deletion → List Memo × List (Option ℕ × ℕ)
told p = (p.state.memos, with_range p.state.last p.state.last0 p.state.ranges)

abbrev pub told_of : List Memo → Option (Progress Deletion) → List Memo × List (Option ℕ × ℕ)
told_of ms none = (ms, [])
told_of ms (some p) = told p

-- The memos that stay after a list of numbers, LAST or ALL, before they are numbered anew.
unfoldable pub del_memos : Bytes → List Memo → List Memo × List (Option ℕ × ℕ)
del_memos numstr ms =
    if is_digit (peek numstr)
    then told_of ms (
        process_numlist del_memo_callback
          (record { memos = ms; last = none; last0 = none; ranges = [] }) numstr)
    else if same_text numstr (b'L' ∷ b'A' ∷ b'S' ∷ b'T' ∷ [])
    then ((delmemo (last_number ms) ms).0, (some (last_number ms), last_number ms) ∷ [])
    else ([], [])

-- How many bytes `%d` writes of an `int`.
unfoldable pub decimals : ℕ → ℕ
decimals n =
    if ltb n 10
    then 1
    else if ltb n 100
    then 2
    else if ltb n 1000
    then 3
    else if ltb n 10000
    then 4
    else if ltb n 100000
    then 5
    else if ltb n 1000000
    then 6
    else if ltb n 10000000
    then 7
    else if ltb n 100000000
    then 8
    else if ltb n 1000000000
    then 9
    else 10

-- How many bytes `,%d` or `,%d-%d` writes; a range that begins with -1 is written so.
abbrev pub range_size : Option ℕ × ℕ → ℕ
range_size (none, last) = 1 + 2 + 1 + decimals last
range_size (some last0, last) =
    if last0 == last then 1 + decimals last else 1 + decimals last0 + 1 + decimals last

unfoldable pub ranges_size : List (Option ℕ × ℕ) → ℕ
ranges_size [] = 0
ranges_size (r ∷ rs) = range_size r + ranges_size rs

-- The text that the user gets, as its ranges. Where they do not fit into `buf`, which has 4096 bytes, `end` is moved
-- behind the buffer, and what the user gets is left open.
abbrev pub said : List (Option ℕ × ℕ) → Option (List (Option ℕ × ℕ))
said ranges = if ltb (ranges_size ranges) 4096 then some ranges else none

-- `do_del` behind the tests of the user and of the word.
unfoldable pub do_del : Bytes → List Memo → List Memo × Option (List (Option ℕ × ℕ))
do_del numstr [] = ([], some [])
do_del numstr (m ∷ ms) =
    let (left, ranges) = del_memos numstr (m ∷ ms) in (number_from 0 left, said ranges)
