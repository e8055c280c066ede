-- ===== src/Socket/Ring.antt =====
-- sockutil.c: what a ring buffer holds, and what a byte behind its end and the removal of one do to it.
use k9_chatnet.Common.{
  ℕ, zero, suc, ◌+◌, ◌-◌, ◌≤◌, ◌<◌, ◌≡◌, refl, sym, ap, ap₂, subst, ◌∙◌, true, false, [], ◌∷◌, ◌++◌,
  Bytes, arith, length, ◌==◌, ==_iff, if◌then◌else◌, append_assoc, append-nil,
}
use k9_chatnet.Socket.{bufsize, Buffer, empty_buffer, buffer_len, is_full, wrap, memcpy, received}

-- The bytes from a place on, around the top of the buffer.
unfoldable pub slice : (ℕ → ℕ) → ℕ → ℕ → Bytes
slice netbuf i zero = []
slice netbuf i (suc n) = netbuf i ∷ slice netbuf (wrap (i + 1)) n

pub contents : Buffer → Bytes
contents b = slice b.netbuf b.curpos (buffer_len b.curpos b.bufend)

pub record IsInside (b : Buffer) : Type 0 where
  pub cur_inside : b.curpos < bufsize
  pub end_inside : b.bufend < bufsize

pub wrap_inside : (i : ℕ) → i ≤ bufsize → wrap i < bufsize
unfolding wrap
wrap_inside i h = ground arith

len_zero : (i e : ℕ) → i < bufsize → e < bufsize → buffer_len i e ≡ 0 → i ≡ e
unfolding buffer_len
len_zero i e h k l = ground arith

len_suc :
    (i e n : ℕ)
    → i < bufsize
    → e < bufsize
    → buffer_len i e ≡ suc n
    → buffer_len (wrap (i + 1)) e ≡ n
unfolding buffer_len wrap
len_suc i e n h k l = ground arith

len_differ : (i e n : ℕ) → buffer_len i e ≡ suc n → i < bufsize → (i == e) ≡ false
unfolding buffer_len
len_differ i e n l h = ground arith

-- A byte behind the end.
slice-snoc :
    (netbuf : ℕ → ℕ) (c e n i : ℕ)
    → i < bufsize
    → e < bufsize
    → buffer_len i e ≡ n
    → slice (λ k. if k == e then c else netbuf k) i (suc n) ≡ slice netbuf i n ++ c ∷ []
unfolding slice
slice-snoc netbuf c e zero i hi he l =
    let hit : (i == e) ≡ true = (==_iff i e).1 (len_zero i e hi he l) in rw hit refl
slice-snoc netbuf c e (suc n) i hi he l = ap₂ (◌∷◌) (rw (len_differ i e n l hi) refl) (
    slice-snoc netbuf c e n (wrap (i + 1)) (wrap_inside (i + 1) (omega arith)) he
      (len_suc i e n hi he l))

-- One byte behind the end of a buffer.
abbrev pub push : ℕ → Buffer → Buffer
push c b = record {
  netbuf = λ k. if k == b.bufend then c else b.netbuf k;
  curpos = b.curpos;
  bufend = wrap (b.bufend + 1);
}

len_push :
    (b : Buffer)
    → IsInside b
    → is_full b ≡ false
    → buffer_len b.curpos (wrap (b.bufend + 1)) ≡ suc (buffer_len b.curpos b.bufend)
unfolding buffer_len wrap is_full
len_push b h f = ground arith

pub contents-push :
    (c : ℕ) (b : Buffer)
    → IsInside b
    → is_full b ≡ false
    → contents (push c b) ≡ contents b ++ c ∷ []
unfolding contents
contents-push c b h f =
    ap (slice (push c b).netbuf b.curpos) (len_push b h f)
    ∙ slice-snoc b.netbuf c b.bufend (buffer_len b.curpos b.bufend) b.curpos h.cur_inside
        h.end_inside refl

not_full :
    (b : Buffer) → IsInside b → buffer_len b.curpos b.bufend < bufsize - 1 → is_full b ≡ false
unfolding buffer_len is_full
not_full b h l = ground arith

pub push-IsInside : (c : ℕ) (b : Buffer) → IsInside b → IsInside (push c b)
push-IsInside c b h = record {
  cur_inside = h.cur_inside;
  end_inside = wrap_inside (b.bufend + 1) (omega (arith, h.end_inside));
}

-- More than one byte, one after the other.
pub pushes : Bytes → Buffer → Buffer
pushes [] b = b
pushes (c ∷ s) b = pushes s (push c b)

pub pushes-contents :
    (s : Bytes) (b : Buffer)
    → IsInside b
    → length s + buffer_len b.curpos b.bufend < bufsize
    → IsInside (pushes s b) × (contents (pushes s b) ≡ contents b ++ s)
unfolding pushes
pushes-contents [] b h l = (h, sym (append-nil (contents b)))
pushes-contents (c ∷ s) b h l =
    let f = not_full b h (omega (arith, l)) in
    let (inside, e) =
      pushes-contents s (push c b) (push-IsInside c b h) (omega (arith, l, len_push b h f)) in
    (inside, e ∙ ap (λ t. t ++ s) (contents-push c b h f) ∙ append_assoc (contents b) (c ∷ []) s)

wrap_next : (e n : ℕ) → e + suc n ≤ bufsize → wrap (wrap (e + 1) + n) ≡ wrap (e + suc n)
unfolding wrap
wrap_next e n h = ground arith

pub wrap_below : (i : ℕ) → i < bufsize → wrap i ≡ i
unfolding wrap
wrap_below i h = ground arith

memcpy-wrap :
    (netbuf : ℕ → ℕ) (i : ℕ) (s : Bytes)
    → i + length s ≤ bufsize
    → memcpy netbuf i s ≡ memcpy netbuf (wrap i) s
unfolding memcpy
memcpy-wrap netbuf i [] h = refl
memcpy-wrap netbuf i (c ∷ s) h =
    ap (λ j. memcpy (λ k. if k == j then c else netbuf k) (j + 1) s)
      (sym (wrap_below i (omega (arith, h))))

below : (e n : ℕ) → e < bufsize → e + suc n ≤ bufsize → wrap (e + 1) + n ≤ bufsize
unfolding wrap
below e n h l = ground arith

-- A copy that does not go over the top of the buffer puts its bytes one after the other.
pub received-pushes :
    (s : Bytes) (b : Buffer)
    → IsInside b
    → b.bufend + length s ≤ bufsize
    → received s b ≡ pushes s b
unfolding received pushes memcpy
received-pushes [] b h l =
    ap (λ e. record b { bufend = e }) (ap wrap (omega arith) ∙ wrap_below b.bufend h.end_inside)
received-pushes (c ∷ s) b h l =
    let next : wrap (b.bufend + 1) + length s ≤ bufsize =
      below b.bufend (length s) h.end_inside l in
    ap₂ (λ m e. record { netbuf = m; curpos = b.curpos; bufend = e })
      (memcpy-wrap (push c b).netbuf (b.bufend + 1) s (omega (arith, l)))
      (sym (wrap_next b.bufend (length s) l))
    ∙ received-pushes s (push c b) (push-IsInside c b h) next

-- A copy of no more than there is room for, and not over the top, is added to what the buffer holds.
pub received-contents :
    (s : Bytes) (b : Buffer)
    → IsInside b
    → b.bufend + length s ≤ bufsize
    → length s + buffer_len b.curpos b.bufend < bufsize
    → IsInside (received s b) × (contents (received s b) ≡ contents b ++ s)
received-contents s b h top room =
    subst (λ r. IsInside r × (contents r ≡ contents b ++ s)) (sym (received-pushes s b h top))
      (pushes-contents s b h room)

pub contents_none :
    (netbuf : ℕ → ℕ) → contents (record { netbuf = netbuf; curpos = 0; bufend = 0 }) ≡ []
unfolding contents buffer_len slice
contents_none netbuf = refl

pub contents-empty_buffer : contents empty_buffer ≡ []
unfolding contents buffer_len slice
contents-empty_buffer = refl

len_first :
    (i e : ℕ)
    → i < bufsize
    → e < bufsize
    → (i == e) ≡ false
    → buffer_len i e ≡ suc (buffer_len (wrap (i + 1)) e)
unfolding buffer_len wrap
len_first i e h k d = ground arith

-- The buffer with the first byte taken out.
pub contents_first :
    (b : Buffer)
    → IsInside b
    → (b.curpos == b.bufend) ≡ false
    → contents b ≡ b.netbuf b.curpos ∷ contents (record b { curpos = wrap (b.curpos + 1) })
unfolding contents slice
contents_first b h d =
    ap (slice b.netbuf b.curpos) (len_first b.curpos b.bufend h.cur_inside h.end_inside d)

pub first-IsInside :
    (b : Buffer) → IsInside b → IsInside (record b { curpos = wrap (b.curpos + 1) })
first-IsInside b h = record {
  cur_inside = wrap_inside (b.curpos + 1) (omega (arith, h.cur_inside));
  end_inside = h.end_inside;
}

-- The place after a number of bytes.
advance : ℕ → ℕ → ℕ
advance i zero = i
advance i (suc n) = advance (wrap (i + 1)) n

slice-append :
    (netbuf : ℕ → ℕ) (n m i : ℕ)
    → slice netbuf i (n + m) ≡ slice netbuf i n ++ slice netbuf (advance i n) m
unfolding slice advance
slice-append netbuf zero m i = ap (slice netbuf i) (omega arith)
slice-append netbuf (suc n) m i =
    let shape : suc n + m ≡ suc (n + m) = omega arith in
    ap (slice netbuf i) shape ∙ ap (◌∷◌ (netbuf i)) (slice-append netbuf n m (wrap (i + 1)))

advance-wrap : (n i : ℕ) → i < bufsize → i + n ≤ bufsize → advance i n ≡ wrap (i + n)
unfolding advance
advance-wrap zero i h k = sym (ap wrap (omega arith) ∙ wrap_below i h)
advance-wrap (suc zero) i h k = refl
advance-wrap (suc (suc n)) i h k =
    ap (λ j. advance j (suc n)) (wrap_below (i + 1) (omega (arith, k)))
    ∙ advance-wrap (suc n) (i + 1) (omega (arith, k)) (omega (arith, k))
    ∙ ap wrap (omega arith)

-- What a buffer holds, with its first bytes apart.
pub contents-split :
    (b : Buffer) (n : ℕ)
    → IsInside b
    → b.curpos + n ≤ bufsize
    → buffer_len b.curpos b.bufend ≡ n + buffer_len (wrap (b.curpos + n)) b.bufend
    → contents b ≡ slice b.netbuf b.curpos n ++ contents (record b { curpos = wrap (b.curpos + n) })
unfolding contents
contents-split b n h k l =
    let m = buffer_len (wrap (b.curpos + n)) b.bufend in
    ap (slice b.netbuf b.curpos) l
    ∙ slice-append b.netbuf n m b.curpos
    ∙ ap (λ i. slice b.netbuf b.curpos n ++ slice b.netbuf i m)
        (advance-wrap n b.curpos h.cur_inside k)
