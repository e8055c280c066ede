-- ===== src/Tests/Sockets.antt =====
-- sockutil.c: bytes through the buffers.
use k9_chatnet.Common.{◌≡◌, refl, inr, [], ◌∷◌, ◌++◌, Bytes, arith, codes}
use k9_chatnet.Socket.Lines.{sgets2, sgets2-line}
use k9_chatnet.Socket.{
  Buffer, empty_buffer, received, take_one, copy_in, written, is_full, maxread, maxwrite, wrap,
  memcpy, fill_top, copy_chunk,
}
use k9_chatnet.Socket.Ring.{slice}
use k9_chatnet.Socket.Read.{Reading, start, reads, gives, IsFifo, Reading-IsFifo}
use k9_chatnet.Socket.Sent.{Writing, front_of, copies, sends, IsSent, Writing-IsSent}
use k9_chatnet.Common.{some}

abbrev line_read : Buffer
line_read = received (codes "PING") empty_buffer

abbrev byte_given : Buffer
byte_given = record line_read { curpos = 1 }

history : Reading ([] ++ codes "PING") ([] ++ b'P' ∷ []) byte_given
unfolding is_full maxread take_one received memcpy wrap
history = gives b'P' byte_given refl (reads (codes "PING") refl (omega arith) start)

Reading-IsFifo_example : IsFifo ([] ++ codes "PING") ([] ++ b'P' ∷ []) byte_given
Reading-IsFifo_example = Reading-IsFifo ([] ++ codes "PING") ([] ++ b'P' ∷ []) byte_given history

abbrev copied : Bytes × Buffer
copied = copy_in (codes "PONG") empty_buffer

sent_history :
    Writing ([] ++ front_of (codes "PONG") copied.0) ([] ++ codes "PO") (written 2 copied.1)
unfolding copy_in fill_top copy_chunk is_full maxwrite memcpy slice wrap
sent_history = sends 2 refl (omega arith) (copies (codes "PONG") (inr (omega arith)) Writing.start)

Writing-IsSent_example :
    IsSent ([] ++ front_of (codes "PONG") copied.0) ([] ++ codes "PO") (written 2 copied.1)
Writing-IsSent_example =
    Writing-IsSent ([] ++ front_of (codes "PONG") copied.0) ([] ++ codes "PO") (written 2 copied.1)
      sent_history

abbrev near_top : Buffer
near_top = record { netbuf = λ i. 1; curpos = 0; bufend = 65534 }

sgets2-line_example :
    sgets2 512 (codes "PING x" ++ 13 ∷ b'\n' ∷ codes "NICK") ≡ some (codes "PING x", codes "NICK")
sgets2-line_example =
    sgets2-line 512 (codes "PING x") (codes "NICK")
      (refl, (refl, (refl, (refl, (refl, (refl, tt))))))
      (refl, (refl, (refl, (refl, (refl, (refl, tt)))))) (omega arith)
