-- ===== src/Session/Table/Writes.antt =====
-- sessions.c: the list of sessions after a write through a pointer, after `unlink` and after `link`.
use k9_chatnet.Common.{
  ℕ, zero, suc, ◌+◌, ◌<◌, ◌≡◌, refl, sym, ◌∙◌, ap, subst, List, [], ◌∷◌, ◌++◌, Bytes, some, arith,
  append_assoc, set, get_elem?, get_or, length, All,
}
use k9_chatnet.Session.Types.{Session}
use k9_chatnet.Session.Table.Flat.{sessions}
use k9_chatnet.Session.Table.Locate.{Located}
use k9_chatnet.Session.Table.{Table, Place, hash, store, unlink}

-- In a table where the sessions stand in the buckets of their hashes the two branches of `unlink`
-- write the same bucket.
pub unlink-set :
    (t : Table) (p : Place)
    → hash p.found.host ≡ p.bucket
    → unlink t p ≡ set t p.bucket (p.before ++ p.after)
unfolding unlink
unlink-set t p e = go p.before refl
  where
    go : (l : List Session) → p.before ≡ l → unlink t p ≡ set t p.bucket (p.before ++ p.after)
    go [] first = rw (first, unlink, e)
    go (x ∷ l) behind = rw (behind, unlink) (ap (λ b. set t p.bucket (b ++ p.after)) behind)

-- The sessions before and behind the found one.
module _ {k : Bytes} {t : Table} {p : Place} (r : Located k t p) where
  abbrev pub left : List Session
  left = r.front ++ p.before

  abbrev pub right : List Session
  right = p.after ++ r.back

  pub sessions-left-right : sessions t ≡ left ++ p.found ∷ right
  sessions-left-right = r.whole ∙ simp append_assoc

  pub sessions-store : (s : Session) → sessions (store t p s) ≡ left ++ s ∷ right
  unfolding store
  sessions-store s = r.replaced (p.before ++ s ∷ p.after) ∙ simp append_assoc

  pub sessions-unlink : hash p.found.host ≡ p.bucket → sessions (unlink t p) ≡ left ++ right
  sessions-unlink e =
      ap sessions (unlink-set t p e) ∙ r.replaced (p.before ++ p.after) ∙ simp append_assoc

-- Where a bucket stands in the list of sessions.
pub bucket_split :
    (t : Table) (i : ℕ)
    → i < length t
    → (xs : List Session) × (ys : List Session) × (get_elem? t i ≡ some (get_or t i []))
      × (sessions t ≡ xs ++ (get_or t i [] ++ ys))
      × ((b : List Session) → sessions (set t i b) ≡ xs ++ (b ++ ys))
bucket_split [] i h = elim h [ ]
bucket_split (b ∷ t) zero h = ([], sessions t, refl, refl, λ c. refl)
bucket_split (b ∷ t) (suc i) h =
    let (xs, ys, at, whole, replaced) = bucket_split t i (omega arith) in
    (
      b ++ xs,
      ys,
      at,
      ap (◌++◌ b) whole ∙ sym (append_assoc b xs _),
      λ c. ap (◌++◌ b) (replaced c) ∙ sym (append_assoc b xs _),
    )

pub hash_bound : (host : Bytes) → hash host < 1024
unfolding hash
hash_bound host = omega arith

-- Every session stands in the bucket of its host's hash.
abbrev pub HashedFrom : ℕ → Table → Type 0
HashedFrom i [] = Unit
HashedFrom i (b ∷ t) = All (λ s. hash s.host ≡ i) b × HashedFrom (suc i) t

pub HashedFrom-get :
    (i j : ℕ) (t : Table) (b : List Session)
    → HashedFrom i t
    → get_elem? t j ≡ some b
    → All (λ s. hash s.host ≡ i + j) b
HashedFrom-get i j [] b h e = absurd (cc)
HashedFrom-get i zero (c ∷ t) b h e =
    let i' : i ≡ i + 0 = omega arith in
    let c' : c ≡ b = ground arith in
    subst (λ n. All (λ s. hash s.host ≡ n) b) i' (subst (All (λ s. hash s.host ≡ i)) c' h.0)
HashedFrom-get i (suc j) (c ∷ t) b h e =
    let i' : suc i + j ≡ i + suc j = omega arith in
    subst (λ n. All (λ s. hash s.host ≡ n) b) i' (HashedFrom-get (suc i) j t b h.1 e)

pub HashedFrom-set :
    (i j : ℕ) (t : Table) (b : List Session)
    → HashedFrom i t
    → All (λ s. hash s.host ≡ i + j) b
    → HashedFrom i (set t j b)
HashedFrom-set i j [] b h g = tt
HashedFrom-set i zero (c ∷ t) b h g =
    let i' : i + 0 ≡ i = omega arith in (subst (λ n. All (λ s. hash s.host ≡ n) b) i' g, h.1)
HashedFrom-set i (suc j) (c ∷ t) b h g =
    let i' : i + suc j ≡ suc i + j = omega arith in
    (h.0, HashedFrom-set (suc i) j t b h.1 (subst (λ n. All (λ s. hash s.host ≡ n) b) i' g))
