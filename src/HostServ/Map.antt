-- ===== src/HostServ/Map.antt =====
-- hostserv.c: the list of virtual hosts as a map from nicks.
use k9_chatnet.Common.{
  ℕ, suc, ◌≡◌, refl, sym, ap, ap₂, subst, ◌∙◌, inl, inr, Bool, true, false, List, [], ◌∷◌, ◌++◌,
  Bytes, Option, none, drop, length, if◌then◌else◌, Bool-cases, All,
}
use k9_chatnet.Text.Case.{same_text}
use k9_chatnet.Text.Order.{is_before, is_before_total, is_before_trans, same_text_right}
use k9_chatnet.Text.Order.Named.{
  SortedBy, first_named, first_named-none, first_named-skip, All-map, SortedBy-delete,
  first_named-delete,
}
use k9_chatnet.HostServ.{HostCore, find_host_core, insert_host_core, delete_host_core}
use k9_chatnet.Text.Order.{is_before_same}
use k9_chatnet.Text.Order.{same_text_sym}
use k9_chatnet.Text.Order.{same_is_before}

abbrev pub nick_of : HostCore → Bytes
nick_of c = c.nick

abbrev pub Sorted : List HostCore → Type 0
Sorted cs = SortedBy nick_of cs

-- Where the search stops: behind the entries that come before the nick.
pub record Stop (n : Bytes) (cs : List HostCore) (i : ℕ) (found : Bool) : Type 0 where
  pub front : List HostCore
  pub behind : List HostCore
  pub whole : cs ≡ front ++ behind
  pub place : i ≡ length front
  pub lower : All (λ (y : HostCore). is_before y.nick n ≡ true) front
  pub missing : found ≡ false → All (λ (y : HostCore). is_before n y.nick ≡ true) behind
  pub hit :
      found ≡ true
      → (c : HostCore) × (rest : List HostCore) × (behind ≡ c ∷ rest) × (same_text n c.nick ≡ true)

pub find_host_core-Stop :
    (n : Bytes) (cs : List HostCore)
    → Sorted cs
    → Stop n cs (find_host_core n cs).0 (find_host_core n cs).1
unfolding find_host_core
find_host_core-Stop n [] s = record {
  front = [];
  behind = [];
  whole = refl;
  place = refl;
  lower = tt;
  missing = λ e. tt;
  hit = λ e. absurd cc;
}
find_host_core-Stop n (d ∷ cs) (h, s) = elim (Bool-cases (same_text n d.nick)) [
  | inl same ↦ rw same (record {
    front = [];
    behind = d ∷ cs;
    whole = refl;
    place = refl;
    lower = tt;
    missing = λ e. absurd cc;
    hit = λ e. (d, cs, refl, same);
  })
  | inr differ ↦ elim (Bool-cases (is_before n d.nick)) [
    | inl before ↦
        rw (differ, before)
          (record {
            front = [];
            behind = d ∷ cs;
            whole = refl;
            place = refl;
            lower = tt;
            missing = λ e. (
              before,
              All-map nick_of (λ y. is_before d.nick y.nick ≡ true) (λ y. is_before n y.nick ≡ true)
                  cs (λ y e. is_before_trans n d.nick y.nick before e) h,
            );
            hit = λ e. absurd cc;
          })
    | inr behind ↦
        rw (differ, behind)
          (let r = find_host_core-Stop n cs s in
            record {
              front = d ∷ r.front;
              behind = r.behind;
              whole = ap (◌∷◌ d) r.whole;
              place = ap suc r.place;
              lower = (is_before_total n d.nick differ behind, r.lower);
              missing = r.missing;
              hit = r.hit;
            })
  ]
]

pub insert_at :
    (c : HostCore) (b a : List HostCore) → insert_host_core c (length b) (b ++ a) ≡ b ++ c ∷ a
unfolding insert_host_core
insert_at c [] a = refl
insert_at c (x ∷ b) a = ap (◌∷◌ x) (insert_at c b a)

delete_at : (c : HostCore) (b a : List HostCore) → delete_host_core (length b) (b ++ c ∷ a) ≡ b ++ a
unfolding delete_host_core
delete_at c [] a = refl
delete_at c (x ∷ b) a = ap (◌∷◌ x) (delete_at c b a)

pub drop_at : (b a : List HostCore) → drop (length b) (b ++ a) ≡ a
drop_at [] a = refl
drop_at (x ∷ b) a = drop_at b a

abbrev pub lookup : Bytes → List HostCore → Option HostCore
lookup n cs = first_named nick_of n cs

-- What a search that finds nothing says.
pub lookup-missing :
    (n m : Bytes) (cs : List HostCore)
    → Sorted cs
    → (find_host_core n cs).1 ≡ false
    → same_text m n ≡ true
    → lookup m cs ≡ none
lookup-missing n m cs s e same =
    let r = find_host_core-Stop n cs s in
    let low : All (λ (y : HostCore). is_before y.nick m ≡ true) r.front =
      All-map nick_of (λ y. is_before y.nick n ≡ true) (λ y. is_before y.nick m ≡ true) r.front
        (λ y h. is_before_same y.nick n m h (same_text_sym m n same)) r.lower in
    let high : All (λ (y : HostCore). is_before m y.nick ≡ true) r.behind =
      All-map nick_of (λ y. is_before n y.nick ≡ true) (λ y. is_before m y.nick ≡ true) r.behind
        (λ y h. same_is_before m n y.nick same h) (r.missing e) in
    ap (lookup m) r.whole
    ∙ first_named-skip nick_of m r.front r.behind low
    ∙ first_named-none nick_of m r.behind high

-- The entry that a search finds.
pub record Hit (n : Bytes) (cs : List HostCore) : Type 0 where
  pub front : List HostCore
  pub entry : HostCore
  pub rest : List HostCore
  pub whole : cs ≡ front ++ entry ∷ rest
  pub place : (find_host_core n cs).0 ≡ length front
  pub lower : All (λ (y : HostCore). is_before y.nick n ≡ true) front
  pub same : same_text n entry.nick ≡ true

pub find_host_core-Hit :
    (n : Bytes) (cs : List HostCore) → Sorted cs → (find_host_core n cs).1 ≡ true → Hit n cs
find_host_core-Hit n cs s e =
    let r = find_host_core-Stop n cs s in
    let (c, rest, split, same) = r.hit e in
    record {
      front = r.front;
      entry = c;
      rest = rest;
      whole = r.whole ∙ ap (λ b. r.front ++ b) split;
      place = r.place;
      lower = r.lower;
      same = same;
    }

-- A deletion in a sorted list.
pub delete-Sorted :
    (n : Bytes) (cs : List HostCore)
    → Sorted cs
    → (find_host_core n cs).1 ≡ true
    → Sorted (delete_host_core (find_host_core n cs).0 cs)
      × ((m : Bytes)
          → lookup m (delete_host_core (find_host_core n cs).0 cs)
            ≡ (if same_text m n then none else lookup m cs))
delete-Sorted n cs s e =
    let r = find_host_core-Hit n cs s e in
    let cut : delete_host_core (find_host_core n cs).0 cs ≡ r.front ++ r.rest =
      ap₂ delete_host_core r.place r.whole ∙ delete_at r.entry r.front r.rest in
    let sorted : Sorted (r.front ++ r.entry ∷ r.rest) = subst Sorted r.whole s in
    (
      subst Sorted (sym cut) (SortedBy-delete nick_of r.front r.entry r.rest sorted),
      λ m.
          ap (lookup m) cut
          ∙ first_named-delete nick_of m r.front r.entry r.rest sorted
          ∙ ap₂ (λ (b : Bool) (l : List HostCore). if b then none else lookup m l)
              (sym (same_text_right m n r.entry.nick r.same)) (sym r.whole),
    )
