-- ===== src/Dispatch/Chains.antt =====
-- modules.c: the table of messages is a map from names, case aside, to the messages in the order in which
-- their handlers run.
use k9_chatnet.Common.{
  ℕ, ◌≤◌, ◌≡◌, refl, sym, ap, ◌∙◌, inl, inr, Bool, true, false, List, [], ◌∷◌, ◌++◌, Bytes, IsText,
  arith, ◌==◌, ==_iff, ltb, if◌then◌else◌, Bool-cases, All,
}
use k9_chatnet.Text.Case.{same_text, same_text_iff}
use k9_chatnet.User.Table.{hash}
use k9_chatnet.User.Table.Hashed.{same_text-hash}
use k9_chatnet.Dispatch.{
  Message, Entry, MessageTable, add_to, add_in, add_message, find_in, find_message,
}

-- The messages of a name after an addition: in front, behind, or only where there is none.
unfoldable pub extended : Message → ℕ → List Message → List Message
extended m pos [] = m ∷ []
extended m pos (f ∷ fs) =
    if pos == 1 then m ∷ f ∷ fs else if pos == 2 then f ∷ (fs ++ m ∷ []) else f ∷ fs

-- Names that are the same are the same as a third one or both not.
same_text_cong :
    (n s t : Bytes)
    → IsText n
    → IsText s
    → IsText t
    → same_text s t ≡ true
    → same_text n s ≡ same_text n t
same_text_cong n s t hn hs ht e =
    let st = (same_text_iff s t hs ht).0 e in
    elim (Bool-cases (same_text n s)) [
      | inl hit ↦ hit ∙ sym ((same_text_iff n t hn ht).1 ((same_text_iff n s hn hs).0 hit ∙ st))
      | inr differ ↦ elim (Bool-cases (same_text n t)) [
        | inl hit ↦
            let both : same_text n s ≡ true =
              (same_text_iff n s hn hs).1 ((same_text_iff n t hn ht).0 hit ∙ sym st) in
            absurd cc
        | inr other ↦ differ ∙ sym other
      ]
    ]

differ_from :
    (n s t : Bytes)
    → IsText n
    → IsText s
    → IsText t
    → same_text s t ≡ false
    → same_text n t ≡ true
    → same_text n s ≡ false
differ_from n s t hn hs ht d e = elim (Bool-cases (same_text n s)) [
  | inr miss ↦ miss
  | inl hit ↦
      let all : same_text s t ≡ true =
        (same_text_iff s t hs ht).1
          (sym ((same_text_iff n s hn hs).0 hit) ∙ (same_text_iff n t hn ht).0 e) in
      absurd cc
]

add_to-extended :
    (m : Message) (pos : ℕ) (e : Entry)
    → ((add_to m pos e).1.first ∷ (add_to m pos e).1.rest ≡ extended m pos (e.first ∷ e.rest))
      × ((add_to m pos e).1.name ≡ e.name)
unfolding extended
add_to-extended m pos e = elim (Bool-cases (pos == 1)) [
  | inl head ↦ rw head (refl, refl)
  | inr p ↦ elim (Bool-cases (pos == 2)) [
    | inl tail ↦ rw (p, tail) (refl, refl)
    | inr q ↦ rw (p, q) (refl, refl)
  ]
]

module _ (strcasecmp : Bytes → Bytes → Bool)
    (documented : (s t : Bytes) → strcasecmp s t ≡ same_text s t) where
  find_in-add_in :
      (m : Message) (pos : ℕ) (n : Bytes) (es : List Entry)
      → IsText n
      → IsText m.name
      → All (λ e. IsText e.name) es
      → find_in n (add_in strcasecmp m pos es).1
        ≡ (if same_text n m.name then extended m pos (find_in n es) else find_in n es)
  unfolding find_in add_in extended
  find_in-add_in m pos n [] hn hm h = refl
  find_in-add_in m pos n (e ∷ es) hn hm (he, h) = elim (Bool-cases (same_text m.name e.name)) [
    | inl same ↦
        let (shape, named) = add_to-extended m pos e in
        let cong : same_text n m.name ≡ same_text n e.name =
          same_text_cong n m.name e.name hn hm he same in
        elim (Bool-cases (same_text n e.name)) [
          | inl hit ↦ rw (documented m.name e.name, same, named, cong ∙ hit, hit) shape
          | inr miss ↦ rw (documented m.name e.name, same, named, cong ∙ miss, miss) refl
        ]
    | inr differ ↦ elim (Bool-cases (same_text n e.name)) [
      | inl hit ↦
          rw
            (documented m.name e.name, differ, hit, differ_from n m.name e.name hn hm he differ hit)
            refl
      | inr miss ↦ rw (documented m.name e.name, differ, miss) (find_in-add_in m pos n es hn hm h)
    ]
  ]

  -- An addition at a position that is allowed, whatever it returns, changes the messages of the name and of
  -- no other: the message is put in front of them, behind them, or, at position 0, only where there are none.
  pub find_message-add_message :
      (table : MessageTable) (m : Message) (pos : ℕ) (n : Bytes)
      → pos ≤ 2
      → IsText n
      → IsText m.name
      → ((i : ℕ) → All (λ e. IsText e.name) (table i))
      → find_message (add_message strcasecmp table m pos).1 n ≡ (
          if same_text n m.name
          then extended m pos (find_message table n)
          else find_message table n)
  unfolding find_message add_message
  find_message-add_message table m pos n le hn hm h =
      let allowed : ltb 2 pos ≡ false = ground arith in
      elim (Bool-cases (hash n == hash m.name)) [
        | inl here ↦
            let at : table (hash m.name) ≡ table (hash n) =
              ap table (sym ((==_iff (hash n) (hash m.name)).0 here)) in
            rw (allowed, here)
              (find_in-add_in m pos n (table (hash m.name)) hn hm (h (hash m.name))
                ∙ ap
                    (λ es.
                      if same_text n m.name then extended m pos (find_in n es) else find_in n es)
                    at)
        | inr there ↦ elim (Bool-cases (same_text n m.name)) [
          | inl same ↦
              let here : (hash n == hash m.name) ≡ true =
                (==_iff (hash n) (hash m.name)).1 (same_text-hash n m.name hn hm same) in
              absurd cc
          | inr other ↦ rw (allowed, there, other) refl
        ]
      ]
