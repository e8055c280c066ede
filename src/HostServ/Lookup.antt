-- ===== src/HostServ/Lookup.antt =====
-- hostserv.c: what `getvHost` returns after an addition.
use k9_chatnet.Common.{
  ℕ, zero, suc, ◌<◌, ◌≡◌, refl, sym, ap, ◌∙◌, inl, inr, true, false, List, [], ◌∷◌, Bytes, some,
  arith, length, Bool-cases,
}
use k9_chatnet.Text.Case.{same_text, same_text_refl}
use k9_chatnet.Text.Order.{is_before}
use k9_chatnet.HostServ.{
  HostCore, find_host_core, insert_host_core, delete_host_core, add_host_core, get_v_host,
}

-- The entry that a search stops at in the list with the new one.
insert-found :
    (c : HostCore) (cs : List HostCore)
    → (find_host_core c.nick cs).1 ≡ false
    → get_v_host c.nick (insert_host_core c (find_host_core c.nick cs).0 cs) ≡ some c.v_host
unfolding get_v_host find_host_core insert_host_core
insert-found c [] h = rw (same_text_refl c.nick) refl
insert-found c (d ∷ cs) h = elim (Bool-cases (same_text c.nick d.nick)) [
  | inl same ↦ let hit : (find_host_core c.nick (d ∷ cs)).1 ≡ true = rw same refl in absurd cc
  | inr differ ↦ elim (Bool-cases (is_before c.nick d.nick)) [
    | inl before ↦ rw (differ, before, same_text_refl c.nick) refl
    | inr behind ↦
        rw (differ, behind, differ, behind)
          (insert-found c cs (sym (rw (differ, behind, find_host_core) refl) ∙ h))
  ]
]

pub found_less :
    (n : Bytes) (cs : List HostCore)
    → (find_host_core n cs).1 ≡ true
    → length cs ≡ suc (length (delete_host_core (find_host_core n cs).0 cs))
unfolding find_host_core delete_host_core
found_less n [] h = absurd cc
found_less n (d ∷ cs) h = elim (Bool-cases (same_text n d.nick)) [
  | inl same ↦ rw same refl
  | inr differ ↦ elim (Bool-cases (is_before n d.nick)) [
    | inl before ↦
        let miss : (find_host_core n (d ∷ cs)).1 ≡ false = rw (differ, before) refl in absurd cc
    | inr behind ↦
        rw (differ, behind)
          (ap suc (found_less n cs (sym (rw (differ, behind, find_host_core) refl) ∙ h)))
  ]
]

-- With more fuel than the list has entries, an addition ends, whatever the list, and the virtual host of
-- the nick is then the one that was added.
pub get_v_host-add_host_core :
    (fuel : ℕ) (c : HostCore) (cs : List HostCore)
    → length cs < fuel
    → get_v_host c.nick (add_host_core fuel c cs) ≡ some c.v_host
unfolding add_host_core
get_v_host-add_host_core zero c cs h = absurd (omega (arith, h))
get_v_host-add_host_core (suc fuel) c cs h = elim (Bool-cases (find_host_core c.nick cs).1) [
  | inl found ↦ rw found (
      get_v_host-add_host_core fuel c (delete_host_core (find_host_core c.nick cs).0 cs)
        (omega (arith, h, found_less c.nick cs found)))
  | inr missing ↦ rw missing (insert-found c cs missing)
]
