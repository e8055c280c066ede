-- ===== src/Socket/Read.antt =====
-- sockutil.c: the buffer of `buffered_read_one`. What `read` returns is at most what the code asks for.
use k9_chatnet.Common.{
  ℕ, ◌+◌, ◌≤◌, ◌<◌, ◌≡◌, sym, ap, subst, ◌∙◌, inl, inr, false, [], ◌∷◌, ◌++◌, Bytes, Option, none,
  some, arith, length, ◌==◌, Bool-cases, append_assoc,
}
use k9_chatnet.Socket.{
  bufsize, Buffer, empty_buffer, buffer_len, is_full, maxread, received, take_one,
}
use k9_chatnet.Socket.Ring.{
  contents, IsInside, received-contents, contents-empty_buffer, contents_first, first-IsInside,
}

-- What came from the socket, what was returned, and the buffer then.
pub data Reading : Bytes → Bytes → Buffer → Type 0 where
  start : Reading [] [] empty_buffer
  reads :
      {came : Bytes}
      → {given : Bytes} → {b : Buffer} → (s : Bytes) → is_full b ≡ false
      → length s ≤ maxread b
      → Reading came given b
      → Reading (came ++ s) given (received s b)
  gives :
      {came : Bytes}
      → {given : Bytes} → {b : Buffer} → (c : ℕ) → (left : Buffer) → take_one b ≡ some (c, left)
      → Reading came given b
      → Reading came (given ++ c ∷ []) left

abbrev pub IsFifo : Bytes → Bytes → Buffer → Type 0
IsFifo came given b = IsInside b × (came ≡ given ++ contents b)

maxread_top : (b : Buffer) → IsInside b → is_full b ≡ false → b.bufend + maxread b ≤ bufsize
unfolding maxread is_full
maxread_top b h f = ground arith

maxread_room :
    (b : Buffer)
    → IsInside b
    → is_full b ≡ false
    → maxread b + buffer_len b.curpos b.bufend < bufsize
unfolding maxread is_full buffer_len
maxread_room b h f = ground arith

abbrev IsFirst : Buffer → Option (ℕ × Buffer) → Type 0
IsFirst b none = Unit
IsFirst b (some (c, left)) = IsInside left × (contents b ≡ c ∷ contents left)

take_one-IsFirst : (b : Buffer) → IsInside b → IsFirst b (take_one b)
unfolding take_one
take_one-IsFirst b h = elim (Bool-cases (b.curpos == b.bufend)) [
  | inl done ↦ rw done tt
  | inr more ↦ rw more (first-IsInside b h, contents_first b h more)
]

-- What was returned and what the buffer holds then is all that came, in its order: no byte is lost or
-- returned twice, wherever in the buffer the pointers are.
pub Reading-IsFifo : (came given : Bytes) (b : Buffer) → Reading came given b → IsFifo came given b
Reading-IsFifo _ _ _ start =
    (record { cur_inside = omega arith; end_inside = omega arith }, sym contents-empty_buffer)
Reading-IsFifo _ _ _ (reads {came} {given} {b} s f l r) =
    let (h, e) = Reading-IsFifo came given b r in
    let (inside, more) =
      received-contents s b h (omega (arith, l, maxread_top b h f))
        (omega (arith, l, maxread_room b h f)) in
    (inside, ap (λ t. t ++ s) e ∙ append_assoc given (contents b) s ∙ ap (◌++◌ given) (sym more))
Reading-IsFifo _ _ _ (gives {came} {given} {b} c left t r) =
    let (h, e) = Reading-IsFifo came given b r in
    let (inside, first) = subst (IsFirst b) t (take_one-IsFirst b h) in
    (inside, e ∙ ap (◌++◌ given) first ∙ sym (append_assoc given (c ∷ []) (contents left)))
