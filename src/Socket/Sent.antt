-- ===== src/Socket/Sent.antt =====
-- sockutil.c: the buffer of `buffered_write` over many rounds of its loop, and where it loses what it holds.
use k9_chatnet.Common.{
  ℕ, ◌+◌, ◌-◌, ◌≤◌, ◌<◌, ◌≡◌, refl, sym, ap, ◌∙◌, ◌⊎◌, true, false, ◌&&◌, [], ◌∷◌, ◌++◌, Bytes,
  arith, length, length-append, take, take-length, drop, length-drop, ◌==◌, leb, append_assoc,
  append-nil,
}
use k9_chatnet.Socket.{
  bufsize, Buffer, empty_buffer, buffer_len, is_full, wrap, memcpy, fill_top, copy_chunk, copy_in,
  maxwrite, written,
}
use k9_chatnet.Socket.Ring.{
  contents, slice, IsInside, wrap_inside, contents-split, contents-empty_buffer,
}
use k9_chatnet.Socket.Write.{Copied, copy_in-Copied, copy_chunk-Copied}
use k9_chatnet.Socket.Ring.{contents_none}

-- The part of the data that a round copies: what the rest is shorter by, from the front.
abbrev pub front_of : Bytes → Bytes → Bytes
front_of s rest = take (length s - length rest) s

-- What was put into the buffer, what the socket took, and the buffer then: a `write` takes at most what it
-- is given.
pub data Writing : Bytes → Bytes → Buffer → Type 0 where
  start : Writing [] [] empty_buffer
  copies :
      {put : Bytes}
      → {sent : Bytes} → {b : Buffer} → (s : Bytes)
      → (0 < b.curpos) ⊎ (b.bufend + length s < bufsize)
      → Writing put sent b
      → Writing (put ++ front_of s (copy_in s b).0) sent (copy_in s b).1
  sends :
      {put : Bytes}
      → {sent : Bytes} → {b : Buffer} → (n : ℕ) → (b.bufend == b.curpos) ≡ false
      → n ≤ maxwrite b
      → Writing put sent b
      → Writing put (sent ++ slice b.netbuf b.curpos n) (written n b)

abbrev pub IsSent : Bytes → Bytes → Buffer → Type 0
IsSent put sent b = IsInside b × (put ≡ sent ++ contents b)

front : (s t r : Bytes) → s ≡ t ++ r → front_of s r ≡ t
front s t r e =
    ap (λ u. take (length u - length r) u) e
    ∙ ap (λ n. take n (t ++ r)) (omega (arith, length-append t r))
    ∙ take-length t r

maxwrite_top :
    (b : Buffer) → IsInside b → (b.bufend == b.curpos) ≡ false → b.curpos + maxwrite b ≤ bufsize
unfolding maxwrite
maxwrite_top b h d = ground arith

maxwrite_len :
    (b : Buffer) (n : ℕ)
    → IsInside b
    → (b.bufend == b.curpos) ≡ false
    → n ≤ maxwrite b
    → buffer_len b.curpos b.bufend ≡ n + buffer_len (wrap (b.curpos + n)) b.bufend
unfolding maxwrite buffer_len wrap
maxwrite_len b n h d l = ground arith

sends-IsSent :
    (put sent : Bytes) (b : Buffer) (n : ℕ)
    → (b.bufend == b.curpos) ≡ false
    → n ≤ maxwrite b
    → IsSent put sent b
    → IsSent put (sent ++ slice b.netbuf b.curpos n) (written n b)
unfolding written
sends-IsSent put sent b n d l (h, e) =
    let top : b.curpos + n ≤ bufsize = omega (arith, l, maxwrite_top b h d) in
    (
      record { cur_inside = wrap_inside (b.curpos + n) top; end_inside = h.end_inside },
      e
          ∙ ap (◌++◌ sent) (contents-split b n h top (maxwrite_len b n h d l))
          ∙ sym (append_assoc sent (slice b.netbuf b.curpos n) _),
    )

-- From the empty buffer on, after rounds of `buffered_write` that copy data into the buffer and writes of which the socket
-- takes at most what it is given, in any order: what the socket took and, behind it, what the buffer holds is all
-- that was put in, in its order. Each round that copies finds the next byte to send not at the start of the
-- buffer, or has data that do not reach the top of the buffer; in other rounds the code loses data.
pub Writing-IsSent : (put sent : Bytes) (b : Buffer) → Writing put sent b → IsSent put sent b
Writing-IsSent _ _ _ start =
    (record { cur_inside = omega arith; end_inside = omega arith }, sym contents-empty_buffer)
Writing-IsSent _ _ _ (copies {put} {sent} {b} s safe w) =
    let (h, e) = Writing-IsSent put sent b w in
    let c : Copied s b (copy_in s b) = copy_in-Copied s b h safe in
    (
      c.inside,
      ap (λ t. put ++ t) (front s c.taken (copy_in s b).0 c.split)
          ∙ ap (λ t. t ++ c.taken) e
          ∙ append_assoc sent (contents b) c.taken
          ∙ ap (◌++◌ sent) (sym c.holds),
    )
Writing-IsSent _ _ _ (sends {put} {sent} {b} n d l w) =
    sends-IsSent put sent b n d l (Writing-IsSent put sent b w)

drop-length : (s : Bytes) → drop (length s) s ≡ []
drop-length [] = refl
drop-length (c ∷ s) = drop-length s

-- Into an empty buffer at its start, all of the data are copied.
chunk_at_start :
    (netbuf : ℕ → ℕ) (s : Bytes)
    → length s < bufsize
    → contents (copy_chunk s (record { netbuf = netbuf; curpos = 0; bufend = 0 })).1 ≡ s
chunk_at_start netbuf s h =
    let b : Buffer = record { netbuf = netbuf; curpos = 0; bufend = 0 } in
    let c : Copied s b (copy_chunk s b) =
      copy_chunk-Copied s b (record { cur_inside = omega arith; end_inside = omega arith })
        (λ l. omega (arith, h)) in
    let none_left : (copy_chunk s b).0 ≡ [] = unfold copy_chunk in drop-length s in
    c.holds
    ∙ ap (λ t. t ++ c.taken) (contents_none netbuf)
    ∙ sym (append-nil c.taken)
    ∙ ap (◌++◌ c.taken) (sym none_left)
    ∙ sym c.split

reaches : (i e l : ℕ) → i ≡ 0 → bufsize ≤ e + l → (leb bufsize (e + l) && leb i e) ≡ true
reaches i e l h k = ground arith

-- When the next byte to send is the first of the buffer and the data reach its top, the buffer holds just
-- the data behind the top: what it held before, and the data up to the top, are lost.
pub copy_in-lost :
    (s : Bytes) (b : Buffer)
    → IsInside b
    → b.curpos ≡ 0
    → is_full b ≡ false
    → bufsize ≤ b.bufend + length s
    → length s < bufsize
    → contents (copy_in s b).1 ≡ drop (bufsize - b.bufend) s
unfolding copy_in fill_top
copy_in-lost s b h at_start space over short =
    let n = bufsize - b.bufend in
    let top : (leb bufsize (b.bufend + length s) && leb b.curpos b.bufend) ≡ true =
      reaches b.curpos b.bufend (length s) at_start over in
    rw (space, top)
      (ap
          (λ i.
            contents
              (copy_chunk (drop n s) (record {
                netbuf = memcpy b.netbuf b.bufend (take n s);
                curpos = i;
                bufend = 0;
              })).1)
          at_start
        ∙ chunk_at_start (memcpy b.netbuf b.bufend (take n s)) (drop n s)
            (omega (arith, length-drop n s)))
