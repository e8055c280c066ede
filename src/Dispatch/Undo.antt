-- ===== src/Dispatch/Undo.antt =====
-- modules.c `delMessage`: a module takes back the message that it added.
use k9_chatnet.Common.{
  ℕ, ◌≡◌, refl, sym, ap, ◌∙◌, inl, inr, Bool, true, List, [], ◌∷◌, Bytes, Option, ◌==◌, ==-refl,
  ==_iff, Bool-cases,
}
use k9_chatnet.Text.Case.{same_text, same_text_refl}
use k9_chatnet.User.Table.{hash}
use k9_chatnet.Dispatch.{
  Message, Entry, MessageTable, add_in, add_message, of_module, without_module, delete_in,
  delete_message,
}

module _ (strcasecmp : Bytes → Bytes → Bool)
    (documented : (s t : Bytes) → strcasecmp s t ≡ same_text s t) where
  delete_in-add_in :
      (m : Message) (owner : Option Bytes) (es : List Entry)
      → of_module owner m ≡ true
      → delete_in strcasecmp m.name owner (add_in strcasecmp m 1 es).1 ≡ (true, es)
  unfolding delete_in add_in without_module
  delete_in-add_in m owner [] own = rw (documented m.name m.name, same_text_refl m.name) refl
  delete_in-add_in m owner (e ∷ es) own = elim (Bool-cases (strcasecmp m.name e.name)) [
    | inl same ↦ rw (same, same, own) refl
    | inr differ ↦ rw (differ, differ) (ap (λ r. (r.0, e ∷ r.1)) (delete_in-add_in m owner es own))
  ]

  -- A message of a module that is put in front of the others of its name is taken back by a deletion for
  -- that module, and leaves the table as it was.
  pub delete_message-add_message :
      (table : MessageTable) (m : Message) (owner : Option Bytes) (i : ℕ)
      → of_module owner m ≡ true
      → (delete_message strcasecmp (add_message strcasecmp table m 1).1 m.name owner).1 i ≡ table i
  unfolding delete_message add_message
  delete_message-add_message table m owner i own = elim (Bool-cases (i == hash m.name)) [
    | inl hit ↦
        rw (hit, ==-refl (hash m.name))
          (ap (λ r. r.1) (delete_in-add_in m owner (table (hash m.name)) own)
            ∙ ap table (sym ((==_iff i (hash m.name)).0 hit)))
    | inr miss ↦ rw miss refl
  ]
