-- ===== src/ChanServ/Kicks.antt =====
-- chanserv.c `check_kick`: is a user who joins kicked, and with which ban. The reason, the channel that is
-- created for the ban, and the commands that are sent are left out. BUFSIZE is 4096.
use k9_chatnet.Common.{
  ℕ, ◌+◌, ◌≡◌, ◌≤◌, ◌<◌, ◌⊎◌, ◌∙◌, sym, ==_iff, refl, inl, inr, Bool, true, false, ◌&&◌, ◌||◌, not,
  List, [], ◌∷◌, Bytes, Option, none, some, if◌then◌else◌, Bool-cases, length,
}
use k9_chatnet.Common.Int.{pos, negsuc, leb_ℤ}
use k9_chatnet.User.{User, match_usermask}
use k9_chatnet.User.Masks.{get_host}
use k9_chatnet.User.Masks.Match.{IsAddress}
use k9_chatnet.ChanServ.Access
use k9_chatnet.ChanServ.Access.{
  ChannelInfo, NickAlias, eq_ℤ, nick_recognized, is_core, is_allowed, get_access, check_access,
}
use k9_chatnet.ChanServ.Bans.{get_idealban, Bans, get_idealban-match_usermask}

-- `u` is the group of a nick or a mask.
pub record AutoKick : Type 0 where
  pub is_used : Bool
  pub is_nick : Bool
  pub nc : ℕ
  pub mask : Bytes

-- The user's groups and rights, his address, and which host `GetHost` gives.
pub record Joining : Type 0 where
  pub user : Access.User
  pub person : User
  pub is_hidden : Bool
  pub is_exempt : Bool

-- The fields of the channel's record besides those of `ChannelInfo`. `excepts` are the exceptions from bans of its channel,
-- and none where there is no channel or where the build has no `is_excepted`.
pub record Kicking : Type 0 where
  pub ci : ChannelInfo
  pub bantype : ℕ
  pub is_suspended : Bool
  pub akick : List AutoKick
  pub excepts : Option (List Bytes)

-- The result 0, or the ban, which may be left ks it was by `get_idealban`.
pub data Kick : Type 0 where
  stays : Kick
  kicked : Option Bytes → Kick

abbrev pub nc_of_alias : Option NickAlias → Option ℕ
nc_of_alias none = none
nc_of_alias (some na) = some na.nc

abbrev pub recognized_nc : Access.User → Option ℕ
recognized_nc u = if nick_recognized u then nc_of_alias u.na else none

unfoldable pub akick_matches : Joining → AutoKick → Bool
akick_matches j a =
    a.is_used
    && ((a.is_nick && is_core (recognized_nc j.user) a.nc)
        || (not a.is_nick && match_usermask a.mask j.person))

-- The loop of `is_excepted`, which goes on behind a match.
unfoldable pub excepted_loop : Joining → Bool → List Bytes → Bool
excepted_loop j isexcepted [] = isexcepted
excepted_loop j isexcepted (m ∷ ms) =
    excepted_loop j (if match_usermask m j.person then true else isexcepted) ms

abbrev pub is_excepted : Joining → Option (List Bytes) → Bool
is_excepted j none = false
is_excepted j (some ms) = excepted_loop j false ms

-- The loop over the akicks.
unfoldable pub find_akick : Joining → List AutoKick → Option AutoKick
find_akick j [] = none
find_akick j (a ∷ ks) = let later = find_akick j ks in if akick_matches j a then some a else later

abbrev pub ideal : Joining → Kicking → Kick
ideal j k = kicked (get_idealban k.bantype j.is_hidden j.person 4096)

abbrev pub akick_ban : Joining → Kicking → AutoKick → Kick
akick_ban j k a = if a.is_nick then ideal j k else kicked (some a.mask)

-- The right is CA_NOJOIN.
abbrev pub nojoin : ℕ → Joining → Kicking → Option AutoKick → Kick × ChannelInfo
nojoin now j k (some a) = (akick_ban j k a, k.ci)
nojoin now j k none =
    let (banned, ci) = check_access now j.user 10 k.ci in (if banned then ideal j k else stays, ci)

unfoldable pub check_kick : ℕ → Joining → Option Kicking → Kick × Option ChannelInfo
check_kick now j none = (stays, none)
check_kick now j (some k) =
    let (kick, ci) = nojoin now j k (find_akick j k.akick) in
    if j.is_exempt
    then (stays, some k.ci)
    else if k.ci.is_verboten
    then (ideal j k, some k.ci)
    else if k.is_suspended
    then (ideal j k, some k.ci)
    else if is_excepted j k.excepts
    then (stays, some k.ci)
    else (kick, some ci)

-- Of some element of the list `P` holds.
abbrev pub AnyOf : {A : Type 0} → (A → Type 0) → List A → Type 0
AnyOf P [] = ⊥
AnyOf P (x ∷ xs) = P x ⊎ AnyOf P xs

-- The user is identified for or recognized as a nick of the group.
abbrev pub IsOf : Option NickAlias → ℕ → Type 0
IsOf o nc =
    (na : NickAlias) × (o ≡ some na)
    × (na.nc ≡ nc)
    × ((na.is_identified ≡ true) ⊎ (na.is_recognized ≡ true))

-- An akick is for a user: it is in use, and is for his group or has a mask that matches him.
abbrev pub IsFor : Joining → AutoKick → Type 0
IsFor j a =
    (a.is_used ≡ true)
    × (((a.is_nick ≡ true) × IsOf j.user.na a.nc)
        ⊎ ((a.is_nick ≡ false) × (match_usermask a.mask j.person ≡ true)))

-- The user's level is at most that of NOJOIN, the tenth one, which is not switched off, and he is no founder.
abbrev pub IsTooLow : Joining → ChannelInfo → Type 0
IsTooLow j ci =
    (eq_ℤ (get_access j.user ci) (pos 10000) ≡ false)
    × (eq_ℤ (ci.levels 10) (negsuc 9999) ≡ false)
    × (leb_ℤ (get_access j.user ci) (ci.levels 10) ≡ true)

abbrev pub IsExcepted : Joining → Option (List Bytes) → Type 0
IsExcepted j none = ⊥
IsExcepted j (some ms) = AnyOf (λ m. match_usermask m j.person ≡ true) ms

-- Who is to be kicked: no operator, and on a channel that is forbidden or suspended, or, where no exception from
-- bans matches him, with an akick that is for him, or whose level is too low to join.
abbrev pub IsKicked : Joining → Kicking → Type 0
IsKicked j k =
    (j.is_exempt ≡ false)
    × ((k.ci.is_verboten ≡ true)
        ⊎ ((k.is_suspended ≡ true)
            ⊎ ((IsExcepted j k.excepts → ⊥) × (AnyOf (IsFor j) k.akick ⊎ IsTooLow j k.ci))))

-- The user stays where `P` does not hold, and else the ban matches him.
abbrev pub KicksWith : Joining → Kick → Type 0 → Type 0
KicksWith j stays P = P → ⊥
KicksWith j (kicked o) P = P × Bans j.person o

differ : {b : Bool} → b ≡ true → b ≡ false → ⊥
differ h k = (let e : true ≡ false = sym h ∙ k in wrong e)
  where
    wrong : true ≡ false → ⊥
    wrong e = cc

core_of :
    (b : Bool) (n m : ℕ) → is_core (if b then some n else none) m ≡ true → (b ≡ true) × (n ≡ m)
core_of true n m h = (refl, (==_iff n m).0 h)
core_of false n m h = cc

or_parts : (a b : Bool) → (a || b) ≡ true → (a ≡ true) ⊎ (b ≡ true)
or_parts true b h = inl refl
or_parts false b h = inr h

or_true : (a b : Bool) → (a ≡ true) ⊎ (b ≡ true) → (a || b) ≡ true
or_true true b h = refl
or_true false b (inl h) = cc
or_true false b (inr h) = h

-- What `recognized_nc` looks up.
abbrev group_at : Option NickAlias → Option ℕ
group_at o =
    if elim o as (λ (_ : Option NickAlias). Bool) [
      | none ↦ false
      | some na ↦ na.is_identified || na.is_recognized
    ]
    then nc_of_alias o
    else none

group_at-IsOf : (o : Option NickAlias) (nc : ℕ) → is_core (group_at o) nc ≡ true → IsOf o nc
group_at-IsOf none nc h = cc
group_at-IsOf (some na) nc h =
    let (known, same) = core_of (na.is_identified || na.is_recognized) na.nc nc h in
    (na, refl, same, or_parts na.is_identified na.is_recognized known)

IsOf-group_at : (o : Option NickAlias) (nc : ℕ) → IsOf o nc → is_core (group_at o) nc ≡ true
IsOf-group_at o nc (na, e, same, known) =
    rw (e, or_true na.is_identified na.is_recognized known) ((==_iff na.nc nc).1 same)

-- The test of the code on its parts, which `IsFor` says in words.
abbrev tested : Bool → Bool → Bool → Bool → Bool
tested used nick core m = used && ((nick && core) || (not nick && m))

tested_parts :
    (used nick core m : Bool)
    → tested used nick core m ≡ true
    → (used ≡ true) × (((nick ≡ true) × (core ≡ true)) ⊎ ((nick ≡ false) × (m ≡ true)))
tested_parts true true true m h = (refl, inl (refl, refl))
tested_parts true true false m h = cc
tested_parts true false core m h = (refl, inr (refl, h))
tested_parts false nick core m h = cc

tested_back :
    (used nick core m : Bool)
    → (used ≡ true) × (((nick ≡ true) × (core ≡ true)) ⊎ ((nick ≡ false) × (m ≡ true)))
    → tested used nick core m ≡ true
tested_back used nick core m (u, inl (n, c)) = rw (u, n, c) refl
tested_back used nick core m (u, inr (n, c)) = rw (u, n, c) refl

akick_matches-IsFor : (j : Joining) (a : AutoKick) → akick_matches j a ≡ true → IsFor j a
unfolding akick_matches nick_recognized
akick_matches-IsFor j a h =
    elim (tested_parts a.is_used a.is_nick (is_core (group_at j.user.na) a.nc)
      (match_usermask a.mask j.person) h).1 [
        | inl (n, c) ↦ (
          (tested_parts a.is_used a.is_nick (is_core (group_at j.user.na) a.nc)
              (match_usermask a.mask j.person) h).0,
          inl (n, group_at-IsOf j.user.na a.nc c),
        )
        | inr both ↦ (
          (tested_parts a.is_used a.is_nick (is_core (group_at j.user.na) a.nc)
              (match_usermask a.mask j.person) h).0,
          inr both,
        )
      ]

IsFor-akick_matches : (j : Joining) (a : AutoKick) → IsFor j a → akick_matches j a ≡ true
unfolding akick_matches nick_recognized
IsFor-akick_matches j a (u, inl (n, c)) =
    tested_back a.is_used a.is_nick (is_core (group_at j.user.na) a.nc)
      (match_usermask a.mask j.person) (u, inl (n, IsOf-group_at j.user.na a.nc c))
IsFor-akick_matches j a (u, inr both) =
    tested_back a.is_used a.is_nick (is_core (group_at j.user.na) a.nc)
      (match_usermask a.mask j.person) (u, inr both)

AkickFound : Joining → List AutoKick → Option AutoKick → Type 0
AkickFound j ks none = AnyOf (IsFor j) ks → ⊥
AkickFound j ks (some a) = AnyOf (IsFor j) ks × (akick_matches j a ≡ true)

find_akick-AkickFound : (j : Joining) (ks : List AutoKick) → AkickFound j ks (find_akick j ks)
unfolding find_akick AkickFound
find_akick-AkickFound j [] = λ x. x
find_akick-AkickFound j (a ∷ ks) = elim (Bool-cases (akick_matches j a)) [
  | inl hit ↦ rw hit (inl (akick_matches-IsFor j a hit), hit)
  | inr miss ↦ rw miss (carry (find_akick j ks) (find_akick-AkickFound j ks) miss)
]
  where
    carry :
        (o : Option AutoKick)
        → AkickFound j ks o
        → akick_matches j a ≡ false
        → AkickFound j (a ∷ ks) o
    carry none h m =
        λ x. elim x [ inl own ↦ differ (IsFor-akick_matches j a own) m | inr later ↦ h later ]
    carry (some b) (h, i) m = (inr h, i)

excepted_loop-AnyOf :
    (j : Joining) (b : Bool) (ms : List Bytes)
    → (excepted_loop j b ms ≡ true → (b ≡ true) ⊎ AnyOf (λ m. match_usermask m j.person ≡ true) ms)
      × ((b ≡ true) ⊎ AnyOf (λ m. match_usermask m j.person ≡ true) ms
          → excepted_loop j b ms ≡ true)
unfolding excepted_loop
excepted_loop-AnyOf j b [] =
    (λ h. inl h, λ h. elim h [ inl e ↦ e | inr none_left ↦ absurd none_left ])
excepted_loop-AnyOf j b (m ∷ ms) = elim (Bool-cases (match_usermask m j.person)) [
  | inl hit ↦ rw hit (λ h. inr (inl refl), λ h. (excepted_loop-AnyOf j true ms).1 (inl refl))
  | inr miss ↦
      let (to, from) = excepted_loop-AnyOf j b ms in
      rw miss (
        λ h. elim (to h) [ inl e ↦ inl e | inr later ↦ inr (inr later) ],
        λ h. elim h [
          | inl e ↦ from (inl e)
          | inr (inl own) ↦ absurd (differ own refl)
          | inr (inr later) ↦ from (inr later)
        ],
      )
]

is_excepted_iff :
    (j : Joining) (o : Option (List Bytes))
    → (is_excepted j o ≡ true → IsExcepted j o) × (IsExcepted j o → is_excepted j o ≡ true)
is_excepted_iff j none = (λ h. differ h refl, λ h. absurd h)
is_excepted_iff j (some ms) =
    let (to, from) = excepted_loop-AnyOf j false ms in
    (λ h. elim (to h) [ inl e ↦ absurd (differ e refl) | inr some_ ↦ some_ ], λ h. from (inr h))

-- The right to join, by the level.
is_allowed-IsTooLow :
    (j : Joining) (ci : ChannelInfo)
    → (is_allowed 10 (get_access j.user ci) ci ≡ true → IsTooLow j ci)
      × (IsTooLow j ci → is_allowed 10 (get_access j.user ci) ci ≡ true)
unfolding is_allowed
is_allowed-IsTooLow j ci =
    go (eq_ℤ (get_access j.user ci) (pos 10000)) (eq_ℤ (ci.levels 10) (negsuc 9999))
      (leb_ℤ (get_access j.user ci) (ci.levels 10))
  where
    go :
        (founder off low : Bool)
        → ((if founder then false else if off then false else low) ≡ true
            → (founder ≡ false) × (off ≡ false) × (low ≡ true))
          × ((founder ≡ false) × (off ≡ false) × (low ≡ true)
              → (if founder then false else if off then false else low) ≡ true)
    go true off low = (λ h. cc, λ (f, g, h). cc)
    go false true low = (λ h. cc, λ (f, g, h). cc)
    go false false low = (λ h. (refl, refl, h), λ (f, g, h). h)

-- An akick that matches gives a ban that does.
mask_matches :
    (j : Joining) (a : AutoKick)
    → akick_matches j a ≡ true
    → a.is_nick ≡ false
    → match_usermask a.mask j.person ≡ true
unfolding akick_matches
mask_matches j a h no_nick =
    last_of a.is_used a.is_nick _ (match_usermask a.mask j.person) h no_nick
  where
    last_of :
        (used nick b m : Bool)
        → (used && ((nick && b) || (not nick && m))) ≡ true
        → nick ≡ false
        → m ≡ true
    last_of true true b m e n = cc
    last_of true false b m e n = e
    last_of false nick b m e n = cc

module _ (now : ℕ) (j : Joining) (k : Kicking)
    (ban : Bans j.person (get_idealban k.bantype j.is_hidden j.person 4096)) where
  akick_ban-Bans : (a : AutoKick) → akick_matches j a ≡ true → KicksWith j (akick_ban j k a) Unit
  akick_ban-Bans a h = elim (Bool-cases a.is_nick) [
    | inl nick ↦ rw nick (tt, ban)
    | inr mask ↦ rw mask (tt, (a.mask, refl, mask_matches j a h mask))
  ]

  with_reason : (P : Type 0) → P → (kick : Kick) → KicksWith j kick Unit → KicksWith j kick P
  with_reason P p stays h = absurd (h tt)
  with_reason P p (kicked o) (u, h) = (p, h)

  nojoin-KicksWith :
      (o : Option AutoKick)
      → AkickFound j k.akick o
      → KicksWith j (nojoin now j k o).0 (AnyOf (IsFor j) k.akick ⊎ IsTooLow j k.ci)
  unfolding AkickFound check_access
  nojoin-KicksWith none missing = elim (Bool-cases (is_allowed 10 (get_access j.user k.ci) k.ci)) [
    | inl low ↦ rw low (inr ((is_allowed-IsTooLow j k.ci).0 low), ban)
    | inr may ↦ rw may (λ x. elim x [
      | inl found ↦ missing found
      | inr low ↦ differ ((is_allowed-IsTooLow j k.ci).1 low) may
    ])
  ]
  nojoin-KicksWith (some a) (found, matches) =
      with_reason (AnyOf (IsFor j) k.akick ⊎ IsTooLow j k.ci) (inl found) (akick_ban j k a)
        (akick_ban-Bans a matches)

-- The tests in their order.
choices :
    (j : Joining) (exempt forbidden suspended excepted : Bool) (E P : Type 0)
    (stay ban : Kick × Option ChannelInfo) (kick : Kick) (ci : ChannelInfo)
    → stay.0 ≡ stays
    → KicksWith j ban.0 Unit
    → ((Q : Type 0) → Q → KicksWith j ban.0 Unit → KicksWith j ban.0 Q)
    → (excepted ≡ true → E)
    → (E → excepted ≡ true)
    → KicksWith j kick P
    → KicksWith j
        (if exempt
          then stay
          else if forbidden
          then ban
          else if suspended
          then ban
          else if excepted
          then stay
          else (kick, some ci)).0
        ((exempt ≡ false) × ((forbidden ≡ true) ⊎ ((suspended ≡ true) ⊎ ((E → ⊥) × P))))
choices j true forbidden suspended excepted E P stay ban kick ci h i w to from m =
    rw h (λ (x, r). differ refl x)
choices j false true suspended excepted E P stay ban kick ci h i w to from m =
    w _ (refl, inl refl) i
choices j false false true excepted E P stay ban kick ci h i w to from m =
    w _ (refl, inr (inl refl)) i
choices j false false false true E P stay ban kick ci h i w to from m = rw h (λ (x, r). elim r [
  | inl f ↦ differ f refl
  | inr (inl s) ↦ differ s refl
  | inr (inr (free, p)) ↦ free (to refl)
])
choices j false false false false E P stay ban kick ci h i w to from m = go kick m
  where
    go :
        (kick : Kick)
        → KicksWith j kick P
        → KicksWith j kick ((false ≡ false) × ((false ≡ true) ⊎ ((false ≡ true) ⊎ ((E → ⊥) × P))))
    go stays h = λ (x, r). elim r [
      | inl f ↦ differ f refl
      | inr (inl s) ↦ differ s refl
      | inr (inr (free, p)) ↦ h p
    ]
    go (kicked o) (p, h) = ((refl, inr (inr (λ e. differ (from e) refl, p))), h)

-- `check_kick` kicks whom it is to kick and no other: nobody who is exempt, and else who joins a channel that is
-- forbidden or suspended, or, where no exception from bans matches him, who has an akick in use for his group or
-- with a mask that matches him, or whose level is at most that of NOJOIN, if this is not switched off and he is no
-- founder. The ban that it sets matches the user, by `match_usermask`: for a user whose shown ident (GetIdent) is his
-- user name, an address without `*`, `?`, `!` and `@`, with a user name not longer than USERMAX when it begins
-- with `~`, both shorter than 4090 bytes together, and a type of bans that there is.
pub check_kick-KicksWith :
    (now : ℕ) (j : Joining) (k : Kicking)
    → IsAddress j.is_hidden j.person
    → k.bantype < 4
    → length j.person.username + length (get_host j.is_hidden j.person) + 6 ≤ 4096
    → KicksWith j (check_kick now j (some k)).0 (IsKicked j k)
unfolding check_kick
check_kick-KicksWith now j k address type room =
    let ban : Bans j.person (get_idealban k.bantype j.is_hidden j.person 4096) =
      (get_idealban-match_usermask k.bantype 4096 j.is_hidden j.person address room).0 type in
    choices j j.is_exempt k.ci.is_verboten k.is_suspended (is_excepted j k.excepts)
      (IsExcepted j k.excepts) (AnyOf (IsFor j) k.akick ⊎ IsTooLow j k.ci) (stays, some k.ci)
      (ideal j k, some k.ci) (nojoin now j k (find_akick j k.akick)).0 _ refl (tt, ban)
      (λ Q q h. (q, h.1)) (is_excepted_iff j k.excepts).0 (is_excepted_iff j k.excepts).1
      (nojoin-KicksWith now j k ban (find_akick j k.akick) (find_akick-AkickFound j k.akick))
