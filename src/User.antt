-- ===== src/User.antt =====
-- users.c: the part of a user that masks are matched with, and `match_usermask`.
pub mod Table
pub mod Masks
use k9_chatnet.Common.{
  ℕ, ◌≡◌, refl, ap, ◌∙◌, Bool, true, false, ◌&&◌, ◌||◌, [], ◌∷◌, ◌++◌, Bytes, Option, none, some,
  ◌==◌, ==-refl, arith, if◌then◌else◌,
}
use k9_chatnet.Text.Wild.{match_wild_nocase}

-- `vhost` is none in a build without HAS_VHOST, and `vident` in one whose GetIdent is the user name.
pub record User : Type 0 where
  pub nick : Bytes
  pub username : Bytes
  pub host : Bytes
  pub vhost : Option Bytes
  pub vident : Option Bytes

unfoldable pub skip_byte : ℕ → Bytes → Bytes
skip_byte d [] = []
skip_byte d (c ∷ s) = if c == d then skip_byte d s else c ∷ s

-- The bytes before the first `d`, and those behind it.
unfoldable pub cut_at : ℕ → Bytes → Bytes × Bytes
cut_at d [] = ([], [])
cut_at d (c ∷ s) = let (token, rest) = cut_at d s in if c == d then ([], s) else (c ∷ token, rest)

-- `strtok` with one delimiter: the token and the rest.
abbrev pub token_of : ℕ → Bytes → Option (Bytes × Bytes)
token_of d [] = none
token_of d (c ∷ s) = some (cut_at d (c ∷ s))

unfoldable pub strtok : ℕ → Bytes → Option (Bytes × Bytes)
unfolding skip_byte cut_at
strtok d s = token_of d (skip_byte d s)

unfoldable pub has_byte : ℕ → Bytes → Bool
has_byte d [] = false
has_byte d (c ∷ s) = if c == d then true else has_byte d s

abbrev pub host_matches : User → Bytes → Bool
host_matches u host =
    match_wild_nocase host u.host
    || elim u.vhost [ none ↦ false | some vhost ↦ match_wild_nocase host vhost ]

-- Without a host, which `strtok(NULL, "")` does not return where nothing is left, the result is 0.
abbrev pub matches_at : User → Bytes → Bytes → Bool
matches_at u username [] = false
matches_at u username (c ∷ host) =
    match_wild_nocase username u.username && host_matches u (c ∷ host)

-- What stands behind the nick: the user name and the host.
abbrev pub matches_rest : User → Option (Bytes × Bytes) → Bool
matches_rest u none = false
matches_rest u (some (username, host)) = matches_at u username host

-- A mask of nothing but `!`s has no nick, and then no user name either.
abbrev pub matches_nick : User → Option (Bytes × Bytes) → Bool
matches_nick u none = false
matches_nick u (some (nick, rest)) =
    match_wild_nocase nick u.nick && matches_rest u (strtok b'@' rest)

unfoldable pub match_usermask : Bytes → User → Bool
match_usermask mask u =
    if has_byte b'!' mask
    then matches_nick u (strtok b'!' mask)
    else matches_rest u (strtok b'@' mask)

abbrev pub Lacks : ℕ → Bytes → Type 0
Lacks d [] = Unit
Lacks d (c ∷ s) = ((c == d) ≡ false) × Lacks d s

-- A part of a mask: not empty, and without the delimiter that ends it.
abbrev pub IsPart : ℕ → Bytes → Type 0
IsPart d [] = ⊥
IsPart d (c ∷ s) = Lacks d (c ∷ s)

has_byte-middle : (d : ℕ) (s t : Bytes) → has_byte d (s ++ d ∷ t) ≡ true
unfolding has_byte
has_byte-middle d [] t = rw (==-refl d) refl
has_byte-middle d (c ∷ s) t = ground (arith, has_byte-middle d s t)

cut_at-middle : (d : ℕ) (s t : Bytes) → Lacks d s → cut_at d (s ++ d ∷ t) ≡ (s, t)
unfolding cut_at
cut_at-middle d [] t h = rw (==-refl d) refl
cut_at-middle d (c ∷ s) t h =
    rw h.0 (ap (λ (r : Bytes × Bytes). (c ∷ r.0, r.1)) (cut_at-middle d s t h.1))

strtok-middle : (d : ℕ) (s t : Bytes) → IsPart d s → strtok d (s ++ d ∷ t) ≡ some (s, t)
unfolding strtok skip_byte
strtok-middle d [] t h = absurd h
strtok-middle d (c ∷ s) t h = rw h.0 (ap some (cut_at-middle d (c ∷ s) t h))

-- A mask of a nick, a user name and a host matches a user when each part matches that of the user, the
-- host or, where there is one, the virtual host.
pub match_usermask-parts :
    (nick username : Bytes) (c : ℕ) (host : Bytes) (u : User)
    → IsPart b'!' nick
    → IsPart b'@' username
    → match_usermask (nick ++ b'!' ∷ (username ++ b'@' ∷ c ∷ host)) u ≡ (
        match_wild_nocase nick u.nick
        && (match_wild_nocase username u.username && host_matches u (c ∷ host)))
unfolding match_usermask
match_usermask-parts nick username c host u hn hu =
    rw (has_byte-middle b'!' nick (username ++ b'@' ∷ c ∷ host), match_usermask)
      (ap (matches_nick u) (strtok-middle b'!' nick (username ++ b'@' ∷ c ∷ host) hn)
        ∙ ap (λ r. match_wild_nocase nick u.nick && matches_rest u r)
            (strtok-middle b'@' username (c ∷ host) hu))
