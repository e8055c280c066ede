-- ===== src/Tests/Memos.antt =====
-- memoserv.c: memos that are sent and deleted. nickserv.c: requests that expire.
use k9_chatnet.Common.{
  arith, ℕ, ◌≡◌, refl, true, false, List, [], ◌∷◌, Bytes, some, codes, ◌==◌, ==_iff, if◌then◌else◌,
  Bool-cases, sym, inl, inr,
}
use k9_chatnet.NickServ.{NickRequest, nick_hash, expire_requests}
use k9_chatnet.NickServ.Expiry.{IsHashed, behind_expired, expire_requests-behind}
use k9_chatnet.Text.Case.{tolower}
use k9_chatnet.Common.Int.{pos}
use k9_chatnet.Text.Number.Lists.{Item, range}
use k9_chatnet.MemoServ.{Memo, MemoInfo, Sender, Post, memo_send, do_del}
use k9_chatnet.MemoServ.Boxes.{start, next, sent, deleted, Reached-IsBox}
use k9_chatnet.MemoServ.Numbers.{IsBox}
use k9_chatnet.MemoServ.{add_memo}

abbrev memo : ℕ → Memo
memo n = record { number = n; is_unread = true; time = 5; sender = codes "ann"; text = codes "hi" }

abbrev memos : List Memo
memos = memo 1 ∷ memo 2 ∷ memo 4 ∷ memo 7 ∷ []

abbrev box : MemoInfo
box = record { memos = memos; memomax = pos 5 }

box-IsBox : IsBox box
box-IsBox = omega arith

abbrev sender : Sender
sender = record {
  display = codes "ann";
  is_servadmin = false;
  is_recognized = true;
  lastmemosend = 3;
}

abbrev post : Post
post = record { readonly = false; is_defcon = false; delay = 10; now = 100 }

abbrev stored_box : MemoInfo
stored_box = record {
  memos =
      memo 1
      ∷ memo 2
      ∷ memo 4
      ∷ memo 7
      ∷ record {
        number = 8;
        is_unread = true;
        time = 100;
        sender = codes "ann";
        text = codes "text";
      }
      ∷ [];
  memomax = pos 5;
}

memo_send_stored : (memo_send post sender 0 (some (codes "text")) (some box)).box ≡ some stored_box
unfolding memo_send add_memo
memo_send_stored = refl

Reached-IsBox_example :
    IsBox (record stored_box { memos = (do_del (codes "2-4") stored_box.memos).0 })
Reached-IsBox_example =
    Reached-IsBox box (record stored_box { memos = (do_del (codes "2-4") stored_box.memos).0 })
      (next stored_box (record stored_box { memos = (do_del (codes "2-4") stored_box.memos).0 })
        (next box stored_box start
          (sent post sender 0 (some (codes "text")) stored_box refl (omega arith) memo_send_stored))
        (deleted (codes "2-4") (omega arith)))
      box-IsBox

abbrev items : List Item
items = range b'1' [] b'3' [] ∷ []

abbrev request : Bytes → ℕ → NickRequest
request nick time = record { nick = nick; requested = time }

-- The newer request stands in front.
abbrev requests : ℕ → List NickRequest
requests i =
    if i == nick_hash (codes "bob")
    then request (codes "BOB") 90 ∷ request (codes "bob") 10 ∷ []
    else []

requests-IsHashed : IsHashed requests
unfolding nick_hash tolower
requests-IsHashed i = elim (Bool-cases (i == 79)) [
  | inl own ↦ rw own (sym ((==_iff i 79).0 own), (sym ((==_iff i 79).0 own), tt))
  | inr other ↦ rw other tt
]

expire_requests-behind_example :
    expire_requests 50 100 requests 79 ≡ behind_expired 50 100 (requests 79) (requests 79)
expire_requests-behind_example =
    expire_requests-behind 50 100 79 requests (omega arith) requests-IsHashed
