-- ===== src/ChanServ/Bans.antt =====
-- chanserv.c `get_idealban`: the ban that a channel sets against a user, by the channel's type of bans.
use k9_chatnet.Common.{
  ℕ, zero, suc, ◌+◌, ◌-◌, ◌≡◌, ◌≤◌, ◌<◌, refl, ap, ◌∙◌, inl, inr, Bool, true, false, ◌||◌, [], ◌∷◌,
  ◌++◌, Bytes, Option, none, some, if◌then◌else◌, Bool-cases, arith, length, length-append, take,
  codes, ◌==◌, All,
}
use k9_chatnet.Text.Wild.{match_wild_nocase, do_match_wild, after_star}
use k9_chatnet.User.{User, match_usermask, match_usermask-parts, host_matches, IsPart}
use k9_chatnet.User.Masks.{get_host, get_ident, create_mask, ident_mask, host_mask}
use k9_chatnet.User.Masks.Plain.{atoms, atoms-accept, Lacks-at, IsMaskByte}
use k9_chatnet.User.Masks.Match.{
  IsAddress, IsIdent, IsNamed, Masks, own, anything, ident_mask-Masks, host_mask-Masks,
  host_mask-IsNamed,
}

-- `snprintf(ret, retlen, ...)`
abbrev pub printed : ℕ → Bytes → Option Bytes
printed retlen s = some (take (retlen - 1) s)

-- `none` is the result 0. The pointers are not NULL, and `retlen` is not 0.
unfoldable pub get_idealban : ℕ → Bool → User → ℕ → Option Bytes
get_idealban bantype hidden u retlen =
    if bantype == 0
    then printed retlen (codes "*!" ++ (get_ident hidden u ++ b'@' ∷ get_host hidden u))
    else if bantype == 1
    then printed retlen
        (codes "*!" ++ (ident_mask (get_ident hidden u) ++ b'@' ∷ get_host hidden u))
    else if bantype == 2
    then printed retlen (codes "*!*@" ++ get_host hidden u)
    else if bantype == 3
    then printed retlen (codes "*!" ++ create_mask hidden u)
    else none

host_matches-get_host :
    (hidden : Bool) (u : User) (mask : Bytes)
    → match_wild_nocase mask (get_host hidden u) ≡ true
    → host_matches u mask ≡ true
host_matches-get_host hidden u mask h = go hidden u.vhost h
  where
    go :
        (b : Bool) (o : Option Bytes)
        → match_wild_nocase mask (
            if b
            then elim o as (λ (_ : Option Bytes). Bytes) [ none ↦ u.host | some vhost ↦ vhost ]
            else u.host)
          ≡ true
        → (match_wild_nocase mask u.host || elim o as (λ (_ : Option Bytes). Bool) [
          | none ↦ false
          | some vhost ↦ match_wild_nocase mask vhost
        ])
          ≡ true
    go false o e = rw e refl
    go true none e = rw e refl
    go true (some v) e = elim (Bool-cases (match_wild_nocase mask u.host)) [
      | inl hit ↦ rw hit refl
      | inr miss ↦ rw miss e
    ]

any_nick : (nick : Bytes) → match_wild_nocase (b'*' ∷ []) nick ≡ true
unfolding match_wild_nocase do_match_wild after_star
any_nick nick = refl

masked-IsPart : (p : Bytes) → All IsMaskByte p → IsNamed p → IsPart b'@' p
masked-IsPart [] h n = absurd n
masked-IsPart (c ∷ p) h n = Lacks-at (c ∷ p) h

-- A mask of which both parts match.
parts_match :
    (hidden : Bool) (u : User) (p q : Bytes)
    → Masks p u.username
    → IsNamed p
    → Masks q (get_host hidden u)
    → IsNamed q
    → match_usermask (codes "*!" ++ (p ++ b'@' ∷ q)) u ≡ true
parts_match hidden u p [] hp np hq nq = absurd nq
parts_match hidden u p (c ∷ q) (hp, mp, lp) np (hq, mq, lq) nq =
    let ident = atoms-accept p u.username (atoms p hp) mp in
    let host =
      host_matches-get_host hidden u (c ∷ q)
        (atoms-accept (c ∷ q) (get_host hidden u) (atoms (c ∷ q) hq) mq) in
    match_usermask-parts (b'*' ∷ []) p c q u (refl, tt) (masked-IsPart p hp np)
    ∙ rw (any_nick u.nick, ident, host) refl

-- What is printed whole.
abbrev pub Bans : User → Option Bytes → Type 0
Bans u o = (mask : Bytes) × (o ≡ some mask) × (match_usermask mask u ≡ true)

take_all : (n : ℕ) (s : Bytes) → length s ≤ n → take n s ≡ s
take_all zero [] h = refl
take_all zero (c ∷ s) h = absurd (omega (arith, h))
take_all (suc n) [] h = refl
take_all (suc n) (c ∷ s) h = ap (◌∷◌ c) (take_all n s (omega (arith, h)))

-- A ban of two parts, each at most a byte longer than what it matches.
printed-Bans :
    (retlen : ℕ) (hidden : Bool) (u : User) (p q : Bytes)
    → length u.username + length (get_host hidden u) + 6 ≤ retlen
    → Masks p u.username × IsNamed p
    → Masks q (get_host hidden u) × IsNamed q
    → Bans u (printed retlen (codes "*!" ++ (p ++ b'@' ∷ q)))
printed-Bans retlen hidden u p q room (hp, np) (hq, nq) =
    let mask = codes "*!" ++ (p ++ b'@' ∷ q) in
    (
      mask,
      ap some (
          take_all (retlen - 1) mask (omega (arith, room, hp.2, hq.2, length-append p (b'@' ∷ q)))),
      parts_match hidden u p q hp np hq nq,
    )

own_ident : (s : Bytes) → IsIdent s → Masks s s × IsNamed s
own_ident [] h = absurd h
own_ident (c ∷ s) h = (own (c ∷ s) h.0, tt)

-- For each of the four types of bans `get_idealban` makes a mask that `match_usermask` matches with the user whom it is
-- made for: for a user whose shown ident (GetIdent) is his user name, an address without `*`, `?`, `!` and `@`, with a user name that is not longer than USERMAX
-- when it begins with `~`, and a buffer of six bytes more than the user name and the host. For any
-- other type there is none.
pub get_idealban-match_usermask :
    (bantype retlen : ℕ) (hidden : Bool) (u : User)
    → IsAddress hidden u
    → length u.username + length (get_host hidden u) + 6 ≤ retlen
    → (bantype < 4 → Bans u (get_idealban bantype hidden u retlen))
      × (4 ≤ bantype → get_idealban bantype hidden u retlen ≡ none)
unfolding get_idealban create_mask
get_idealban-match_usermask bantype retlen hidden u (ident, host, named, shown) room =
    let username = own_ident u.username ident in
    let whole : Masks (get_host hidden u) (get_host hidden u) × IsNamed (get_host hidden u) =
      (own (get_host hidden u) host, named) in
    let ident1 = ident_mask-Masks u.username ident in
    let type0 = printed-Bans retlen hidden u u.username (get_host hidden u) room username whole in
    let type1 =
      printed-Bans retlen hidden u (ident_mask u.username) (get_host hidden u) room ident1 whole in
    let type2 =
      printed-Bans retlen hidden u (b'*' ∷ []) (get_host hidden u) room (anything u.username, tt)
        whole in
    let type3 =
      printed-Bans retlen hidden u (ident_mask u.username) (host_mask (get_host hidden u)) room
        ident1
        (host_mask-Masks (get_host hidden u) host, host_mask-IsNamed (get_host hidden u) named) in
    rw shown (go bantype type0 type1 type2 type3)
  where
    go :
        (b : ℕ) {v w x y : Option Bytes}
        → Bans u v
        → Bans u w
        → Bans u x
        → Bans u y
        → (b < 4
            → Bans u (
                if b == 0
                then v
                else if b == 1
                then w
                else if b == 2
                then x
                else if b == 3
                then y
                else none))
          × (4 ≤ b
              → (if b == 0
                  then v
                  else if b == 1
                  then w
                  else if b == 2
                  then x
                  else if b == 3
                  then y
                  else none)
                ≡ none)
    go zero t0 t1 t2 t3 = (λ h. t0, λ h. absurd (omega (arith, h)))
    go (suc zero) t0 t1 t2 t3 = (λ h. t1, λ h. absurd (omega (arith, h)))
    go (suc (suc zero)) t0 t1 t2 t3 = (λ h. t2, λ h. absurd (omega (arith, h)))
    go (suc (suc (suc zero))) t0 t1 t2 t3 = (λ h. t3, λ h. absurd (omega (arith, h)))
    go (suc (suc (suc (suc n)))) t0 t1 t2 t3 =
        let e0 : (suc (suc (suc (suc n))) == 0) ≡ false = ground arith in
        let e1 : (suc (suc (suc (suc n))) == 1) ≡ false = ground arith in
        let e2 : (suc (suc (suc (suc n))) == 2) ≡ false = ground arith in
        let e3 : (suc (suc (suc (suc n))) == 3) ≡ false = ground arith in
        rw (e0, e1, e2, e3) (λ h. absurd (omega (arith, h)), λ h. refl)
