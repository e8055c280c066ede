-- ===== src/Socket/Write.antt =====
-- sockutil.c: the buffer of `buffered_write` and `flush_write_buffer`.
use k9_chatnet.Common.{
  ℕ, ◌+◌, ◌-◌, ◌≤◌, ◌<◌, ◌≡◌, refl, sym, ap, subst, ◌∙◌, ◌⊎◌, inl, inr, true, false, ◌&&◌, [], ◌++◌,
  Bytes, arith, length, take, drop, take-append-drop, length-take, ltb, leb, Bool-cases,
  append_assoc, append-nil,
}
use k9_chatnet.Socket.{
  bufsize, Buffer, buffer_len, is_full, wrap, memcpy, received, fill_top, copy_chunk, copy_in,
}
use k9_chatnet.Socket.Ring.{contents, IsInside, received-contents, wrap_below}

-- What was copied of the data, and the buffer then.
pub record Copied (s : Bytes) (b : Buffer) (r : Bytes × Buffer) : Type 0 where
  pub taken : Bytes
  pub split : s ≡ taken ++ r.0
  pub inside : IsInside r.1
  pub holds : contents r.1 ≡ contents b ++ taken

-- A prefix that is copied to the end.
copied :
    (n : ℕ) (s : Bytes) (b : Buffer) (e : ℕ)
    → n ≤ length s
    → wrap (b.bufend + n) ≡ e
    → b.bufend + n ≤ bufsize
    → n + buffer_len b.curpos b.bufend < bufsize
    → IsInside b
    → Copied s b (drop n s, record b { netbuf = memcpy b.netbuf b.bufend (take n s); bufend = e })
copied n s b e le at top room h = record {
  taken = take n s;
  split = sym (take-append-drop n s);
  inside = subst IsInside same whole.0;
  holds = subst (λ r. contents r ≡ contents b ++ take n s) same whole.1;
}
  where
    size : length (take n s) ≡ n
    size = omega (arith, length-take n s)

    whole :
        IsInside (received (take n s) b)
        × (contents (received (take n s) b) ≡ contents b ++ take n s)
    whole = received-contents (take n s) b h (omega (arith, size)) (omega (arith, size))

    same :
        received (take n s) b
        ≡ record b { netbuf = memcpy b.netbuf b.bufend (take n s); bufend = e }
    same =
        unfold received in
        ap (λ j. record b { netbuf = memcpy b.netbuf b.bufend (take n s); bufend = j })
          (ap (λ k. wrap (b.bufend + k)) size ∙ at)

len_above : (i e : ℕ) → e < i → buffer_len i e ≡ e + bufsize - i
unfolding buffer_len
len_above i e h = ground arith

len_below : (i e : ℕ) → i ≤ e → buffer_len i e ≡ e - i
unfolding buffer_len
len_below i e h = ground arith

part_less : (i e l : ℕ) → (ltb e i && ltb (i - e - 1) l) ≡ true → (e < i) × (i - e - 1 < l)
part_less i e l h = ground arith

whole_fits :
    (i e l : ℕ)
    → (ltb e i && ltb (i - e - 1) l) ≡ false
    → i < bufsize
    → e < bufsize
    → (i ≤ e → e + l < bufsize)
    → (e + l < bufsize) × (l + buffer_len i e < bufsize)
unfolding buffer_len
whole_fits i e l h k m f = (ground arith, ground arith)

pub copy_chunk-Copied :
    (s : Bytes) (b : Buffer)
    → IsInside b
    → (b.curpos ≤ b.bufend → b.bufend + length s < bufsize)
    → Copied s b (copy_chunk s b)
unfolding copy_chunk
copy_chunk-Copied s b h fits =
    elim (Bool-cases (ltb b.bufend b.curpos && ltb (b.curpos - b.bufend - 1) (length s))) [
      | inl part ↦
          let (above, less) = part_less b.curpos b.bufend (length s) part in
          rw part (
            copied (b.curpos - b.bufend - 1) s b (b.bufend + (b.curpos - b.bufend - 1))
              (omega (arith, less))
              (wrap_below (b.bufend + (b.curpos - b.bufend - 1))
                (omega (arith, above, h.cur_inside)))
              (omega (arith, above, h.cur_inside))
              (omega (arith, above, h.cur_inside, h.end_inside, len_above b.curpos b.bufend above))
              h)
      | inr all ↦
          let (top, room) =
            whole_fits b.curpos b.bufend (length s) all h.cur_inside h.end_inside fits in
          rw all (
            copied (length s) s b (b.bufend + length s) (omega arith)
              (wrap_below (b.bufend + length s) top) (omega (arith, top)) room h)
    ]

-- Two copies, one after the other.
Copied-trans :
    (s : Bytes) (b : Buffer) (r t : Bytes × Buffer) → Copied s b r → Copied r.0 r.1 t → Copied s b t
Copied-trans s b r t one two = record {
  taken = one.taken ++ two.taken;
  split = one.split ∙ ap (◌++◌ one.taken) two.split ∙ sym (append_assoc one.taken two.taken t.0);
  inside = two.inside;
  holds =
      two.holds
      ∙ ap (λ u. u ++ two.taken) one.holds
      ∙ append_assoc (contents b) one.taken two.taken;
}

Copied-nothing : (s : Bytes) (b : Buffer) → IsInside b → Copied s b (s, b)
Copied-nothing s b h = record {
  taken = [];
  split = refl;
  inside = h;
  holds = sym (append-nil (contents b));
}

top_cases : (i e l : ℕ) → (leb bufsize (e + l) && leb i e) ≡ true → (bufsize ≤ e + l) × (i ≤ e)
top_cases i e l h = ground arith

no_top : (i e l : ℕ) → (leb bufsize (e + l) && leb i e) ≡ false → i ≤ e → e + l < bufsize
no_top i e l h k = ground arith

pub wrap_top : (e : ℕ) → e < bufsize → wrap (e + (bufsize - e)) ≡ 0
unfolding wrap
wrap_top e h = ground arith

-- Unless the next byte to send is the first of the buffer and the data reach its top, a round of the loop
-- adds a part from the front of the data to what the buffer holds, and leaves the rest of the data.
pub copy_in-Copied :
    (s : Bytes) (b : Buffer)
    → IsInside b
    → (0 < b.curpos) ⊎ (b.bufend + length s < bufsize)
    → Copied s b (copy_in s b)
unfolding copy_in fill_top
copy_in-Copied s b h safe = elim (Bool-cases (is_full b)) [
  | inl full ↦ rw full (Copied-nothing s b h)
  | inr space ↦ elim (Bool-cases (leb bufsize (b.bufend + length s) && leb b.curpos b.bufend)) [
    | inl top ↦
        let (over, below) = top_cases b.curpos b.bufend (length s) top in
        let positive : 0 < b.curpos = elim safe [ inl p ↦ p | inr q ↦ omega (arith, over, q) ] in
        let first =
          copied (bufsize - b.bufend) s b 0 (omega (arith, over, h.end_inside))
            (wrap_top b.bufend h.end_inside) (omega (arith, h.end_inside))
            (omega (arith, h.end_inside, positive, len_below b.curpos b.bufend below)) h in
        rw (space, top)
          (Copied-trans s b _ _ first (
            copy_chunk-Copied (drop (bufsize - b.bufend) s) _ first.inside
              (λ l. absurd (omega (arith, l, positive)))))
    | inr no_wrap ↦
        rw (space, no_wrap) (copy_chunk-Copied s b h (no_top b.curpos b.bufend (length s) no_wrap))
  ]
]
