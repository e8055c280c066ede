-- ===== src/User/Masks/Match.antt =====
-- users.c `create_mask`: the mask of a user matches him.
use k9_chatnet.Common.{
  ℕ, suc, ◌+◌, ◌≡◌, ◌≤◌, ◌<◌, refl, sym, ap, subst, inl, inr, Bool, true, false, [], ◌∷◌, ◌++◌,
  Bytes, Option, none, some, All, arith, ◌==◌, ==_iff, ltb, if◌then◌else◌, Bool-cases, if_cases,
  length, length-append,
}
use k9_chatnet.Text.Wild.Glob.{Matches, empty, byte, take, leave}
use k9_chatnet.Text.Wild.{match_wild_nocase}
use k9_chatnet.User.{User}
use k9_chatnet.User.Masks.{
  get_host, get_ident, ident_mask, from_dot, next_dot, is_some, is_ip, with_head, before_last_dot,
  subnet, domain, host_mask, create_mask,
}
use k9_chatnet.User.Masks.Plain.{
  IsMaskByte, IsPlain, IsAtom, mask_bytes, append_bytes, atoms, atoms-accept, Matches_same,
  Matches_star, Matches-append,
}
use k9_chatnet.Common.{All-append}
use k9_chatnet.Common.{append-nil}

-- A mask of the bytes that masks have, one longer than the text at most, which it matches.
abbrev pub Masks : Bytes → Bytes → Type 0
Masks p s = All IsMaskByte p × Matches false p s × (length p ≤ length s + 1)

star_byte : IsMaskByte b'*'
star_byte = (omega arith, omega arith, omega arith, omega arith)

pub own : (s : Bytes) → All IsPlain s → Masks s s
own s h = (mask_bytes s h, Matches_same s h, omega arith)

starred : (s : Bytes) → All IsPlain s → Masks (b'*' ∷ s) s
starred s h = ((star_byte, mask_bytes s h), leave refl (Matches_same s h), omega arith)

pub anything : (s : Bytes) → Masks (b'*' ∷ []) s
anything s = (
  (star_byte, tt),
  subst (Matches false (b'*' ∷ [])) (append-nil s) (Matches_star s [] [] empty),
  omega arith,
)

-- What stands behind the `~`.
tilde_name :
    (b : Bool) (c : ℕ) (s : Bytes)
    → All IsPlain (c ∷ s)
    → Masks (b'*' ∷ (if b then s else c ∷ s)) (c ∷ s)
tilde_name true c s (h, hs) =
    ((star_byte, mask_bytes s hs), take refl (leave refl (Matches_same s hs)), omega arith)
tilde_name false c s h = starred (c ∷ s) h

-- A user name as the server sends it: with a `~` in front it is not longer than USERMAX.
abbrev pub IsIdent : Bytes → Type 0
IsIdent [] = ⊥
IsIdent (c ∷ s) = All IsPlain (c ∷ s) × (c ≡ b'~' → length s < 10)

abbrev pub IsNamed : Bytes → Type 0
IsNamed [] = ⊥
IsNamed (c ∷ s) = Unit

pub ident_mask-Masks : (s : Bytes) → IsIdent s → Masks (ident_mask s) s × IsNamed (ident_mask s)
unfolding ident_mask
ident_mask-Masks [] h = absurd h
ident_mask-Masks (c ∷ s) (h, short) = elim (Bool-cases (c == b'~')) [
  | inl tilde ↦
      let fits : ltb (suc (length s)) 11 ≡ true =
        let less = short ((==_iff c b'~').0 tilde) in ground arith in
      rw (tilde, fits) (tilde_name true c s h, tt)
  | inr other ↦ rw other (
      if_cases (λ m. Masks m (c ∷ s) × IsNamed m) (ltb (suc (length s)) 10) (b'*' ∷ c ∷ s) (c ∷ s)
        (λ e. (starred (c ∷ s) h, tt)) (λ e. (own (c ∷ s) h, tt)))
]

-- The text from a dot on is its end.
FromDot : Bytes → Option Bytes → Type 0
FromDot s none = Unit
FromDot s (some t) = (a : Bytes) × (s ≡ a ++ t)

from_dot-end : (s : Bytes) → FromDot s (from_dot s)
unfolding from_dot FromDot
from_dot-end [] = tt
from_dot-end (c ∷ s) = elim (Bool-cases (c == b'.')) [
  | inl dot ↦ rw dot ([], refl)
  | inr other ↦ rw other (later (from_dot s) (from_dot-end s))
]
  where
    later : (o : Option Bytes) → FromDot s o → FromDot (c ∷ s) o
    later none h = tt
    later (some t) (a, e) = (c ∷ a, ap (◌∷◌ c) e)

-- What stands before the last dot, and the dot.
Head : Bytes → Option Bytes → Type 0
Head s none = Unit
Head s (some a) = (b : Bytes) × (s ≡ a ++ b'.' ∷ b)

with_head-Head : (c : ℕ) (s : Bytes) (o : Option Bytes) → Head s o → Head (c ∷ s) (with_head c o)
unfolding Head
with_head-Head c s none h = elim (Bool-cases (c == b'.')) [
  | inl dot ↦ rw dot (s, ap (λ d. d ∷ s) ((==_iff c b'.').0 dot))
  | inr other ↦ rw other tt
]
with_head-Head c s (some a) (b, e) = (b, ap (◌∷◌ c) e)

before_last_dot-Head : (s : Bytes) → Head s (before_last_dot s)
unfolding before_last_dot Head
before_last_dot-Head [] = tt
before_last_dot-Head (c ∷ s) = with_head-Head c s (before_last_dot s) (before_last_dot-Head s)

parts-IsPlain : (s a b : Bytes) → s ≡ a ++ b → All IsPlain s → All IsPlain a × All IsPlain b
parts-IsPlain s a b e h = (All-append IsPlain a b).0 (subst (All IsPlain) e h)

domain-Masks : (s : Bytes) (o : Option Bytes) → All IsPlain s → FromDot s o → Masks (domain s o) s
unfolding FromDot
domain-Masks s none h k = own s h
domain-Masks s (some t) h (a, e) =
    let (ha, ht) = parts-IsPlain s a t e h in
    (
      (star_byte, mask_bytes t ht),
      subst (Matches false (b'*' ∷ t)) (sym e) (Matches_star a t t (Matches_same t ht)),
      omega (arith, ap length e, length-append a t),
    )

subnet-Masks : (s : Bytes) (o : Option Bytes) → All IsPlain s → Head s o → Masks (subnet s o) s
unfolding Head
subnet-Masks s none h k = own s h
subnet-Masks s (some a) h (b, e) =
    let (ha, (hd, hb)) = parts-IsPlain s a (b'.' ∷ b) e h in
    (
      append_bytes a (b'.' ∷ b'*' ∷ []) (mask_bytes a ha) (hd.1, (star_byte, tt)),
      subst (Matches false (a ++ b'.' ∷ b'*' ∷ [])) (sym e) (
          Matches-append (Matches_same a ha) (
            byte (omega arith) (omega arith) refl (
              subst (λ t. Matches false (b'*' ∷ []) t) (append-nil b)
                (Matches_star b [] [] empty)))),
      omega (arith, ap length e, length-append a (b'.' ∷ b), length-append a (b'.' ∷ b'*' ∷ [])),
    )

pub host_mask-Masks : (s : Bytes) → All IsPlain s → Masks (host_mask s) s
unfolding host_mask
host_mask-Masks s h =
    if_cases (λ m. Masks m s) (is_ip s) (subnet s (before_last_dot s))
      (if is_some (next_dot (from_dot s)) then domain s (from_dot s) else s)
      (λ e. subnet-Masks s (before_last_dot s) h (before_last_dot-Head s))
      (λ e.
        if_cases (λ m. Masks m s) (is_some (next_dot (from_dot s))) (domain s (from_dot s)) s
          (λ f. domain-Masks s (from_dot s) h (from_dot-end s)) (λ f. own s h))

subnet-IsNamed : (s : Bytes) (o : Option Bytes) → IsNamed s → IsNamed (subnet s o)
subnet-IsNamed s none h = h
subnet-IsNamed s (some []) h = tt
subnet-IsNamed s (some (c ∷ a)) h = tt

domain-IsNamed : (s : Bytes) (o : Option Bytes) → IsNamed s → IsNamed (domain s o)
domain-IsNamed s none h = h
domain-IsNamed s (some t) h = tt

pub host_mask-IsNamed : (s : Bytes) → IsNamed s → IsNamed (host_mask s)
unfolding host_mask
host_mask-IsNamed s h =
    if_cases IsNamed (is_ip s) (subnet s (before_last_dot s))
      (if is_some (next_dot (from_dot s)) then domain s (from_dot s) else s)
      (λ e. subnet-IsNamed s (before_last_dot s) h)
      (λ e.
        if_cases IsNamed (is_some (next_dot (from_dot s))) (domain s (from_dot s)) s
          (λ f. domain-IsNamed s (from_dot s) h) (λ f. h))

-- A user name and a host as they are on the network: without `*`, `?`, `!` and `@`. The ident that is shown of the user
-- is his user name.
abbrev pub IsAddress : Bool → User → Type 0
IsAddress hidden u =
    IsIdent u.username
    × All IsPlain (get_host hidden u)
    × IsNamed (get_host hidden u)
    × (get_ident hidden u ≡ u.username)

joined_mask :
    (p s q t : Bytes)
    → Masks p s
    → Masks q t
    → All IsAtom (p ++ b'@' ∷ q) × Matches false (p ++ b'@' ∷ q) (s ++ b'@' ∷ t)
joined_mask p s q t (hp, mp, lp) (hq, mq, lq) = (
  (All-append IsAtom p (b'@' ∷ q)).1 (atoms p hp, ((omega arith, omega arith), atoms q hq)),
  Matches-append mp (byte (omega arith) (omega arith) refl mq),
)

-- The mask matches the address that it is made of.
pub create_mask-address :
    (hidden : Bool) (u : User)
    → IsAddress hidden u
    → match_wild_nocase (create_mask hidden u) (u.username ++ b'@' ∷ get_host hidden u) ≡ true
unfolding create_mask
create_mask-address hidden u (ident, host, named, shown) =
    let (atoms, matches) =
      joined_mask (ident_mask u.username) u.username (host_mask (get_host hidden u))
        (get_host hidden u) (ident_mask-Masks u.username ident).0
        (host_mask-Masks (get_host hidden u) host) in
    rw shown (
      atoms-accept (ident_mask u.username ++ b'@' ∷ host_mask (get_host hidden u))
        (u.username ++ b'@' ∷ get_host hidden u) atoms matches)

-- A mask of a user has at most three bytes more than his user name and his host.
pub length-create_mask :
    (hidden : Bool) (u : User)
    → IsAddress hidden u
    → length (create_mask hidden u) ≤ length u.username + length (get_host hidden u) + 3
unfolding create_mask
length-create_mask hidden u (ident, host, named, shown) =
    let (m, n) = ident_mask-Masks u.username ident in
    let k = host_mask-Masks (get_host hidden u) host in
    rw shown (
      omega (
        arith,
        m.2,
        k.2,
        length-append (ident_mask u.username) (b'@' ∷ host_mask (get_host hidden u)),
      ))
