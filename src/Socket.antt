-- ===== src/Socket.antt =====
-- sockutil.c: the two ring buffers, between the socket and the lines that are read and written. A
-- pointer into a buffer is its offset.
pub mod Ring
pub mod Read
pub mod Write
pub mod Sent
pub mod Lines
use k9_chatnet.Common.{
  ℕ, zero, suc, ◌+◌, ◌-◌, ◌^◌, Bool, true, false, ◌&&◌, ◌||◌, List, [], ◌∷◌, Bytes, Option, none,
  some, length, take, drop, ◌==◌, ltb, leb, if◌then◌else◌,
}

-- NET_BUFSIZE
abbrev pub bufsize : ℕ
bufsize = 65536

-- `read_netbuf`, `read_curpos` and `read_bufend`, and the same of the other buffer.
pub record Buffer : Type 0 where
  pub netbuf : ℕ → ℕ
  pub curpos : ℕ
  pub bufend : ℕ

abbrev pub empty_buffer : Buffer
empty_buffer = record { netbuf = λ i. 0; curpos = 0; bufend = 0 }

unfoldable pub buffer_len : ℕ → ℕ → ℕ
buffer_len curpos bufend = if leb curpos bufend then bufend - curpos else bufend + bufsize - curpos

unfoldable pub is_full : Buffer → Bool
is_full b = (b.curpos == b.bufend + 1) || ((b.curpos == 0) && (b.bufend == bufsize - 1))

-- A pointer that was moved to the top of the buffer goes on at its start.
unfoldable pub wrap : ℕ → ℕ
wrap i = if i == bufsize then 0 else i

unfoldable pub memcpy : (ℕ → ℕ) → ℕ → Bytes → ℕ → ℕ
memcpy netbuf i [] = netbuf
memcpy netbuf i (c ∷ s) = memcpy (λ k. if k == i then c else netbuf k) (i + 1) s

-- The room for one `read`.
unfoldable pub maxread : Buffer → ℕ
maxread b =
    if ltb b.bufend b.curpos
    then b.curpos - 1 - b.bufend
    else if b.curpos == 0
    then bufsize - b.bufend - 1
    else bufsize - b.bufend

-- What one `read` returned is behind `read_bufend`.
unfoldable pub received : Bytes → Buffer → Buffer
received s b = record b { netbuf = memcpy b.netbuf b.bufend s; bufend = wrap (b.bufend + length s) }

-- The end of `buffered_read_one`: EOF, or the next byte.
unfoldable pub take_one : Buffer → Option (ℕ × Buffer)
take_one b =
    if b.curpos == b.bufend
    then none
    else some (b.netbuf b.curpos, record b { curpos = wrap (b.curpos + 1) })

-- The room for one `write`: what stands there is sent.
unfoldable pub maxwrite : Buffer → ℕ
maxwrite b =
    if ltb b.bufend b.curpos
    then bufsize - b.curpos
    else if b.bufend == 0
    then bufsize - b.curpos - 1
    else b.bufend - b.curpos

-- A `write` that took `n` bytes.
unfoldable pub written : ℕ → Buffer → Buffer
written n b = record b { curpos = wrap (b.curpos + n) }

-- The part of `buffered_write` that fills the buffer up to its top: what is left of the data.
unfoldable pub fill_top : Bytes → Buffer → Bytes × Buffer
fill_top s b =
    let n = bufsize - b.bufend in
    if leb bufsize (b.bufend + length s) && leb b.curpos b.bufend
    then (drop n s, record b { netbuf = memcpy b.netbuf b.bufend (take n s); bufend = 0 })
    else (s, b)

unfoldable pub copy_chunk : Bytes → Buffer → Bytes × Buffer
copy_chunk s b =
    let room = b.curpos - b.bufend - 1 in
    let n = if ltb b.bufend b.curpos && ltb room (length s) then room else length s in
    (drop n s, record b { netbuf = memcpy b.netbuf b.bufend (take n s); bufend = b.bufend + n })

-- What one round of the loop of `buffered_write` copies.
unfoldable pub copy_in : Bytes → Buffer → Bytes × Buffer
copy_in s b = if is_full b then (s, b) else let (rest, top) = fill_top s b in copy_chunk rest top
