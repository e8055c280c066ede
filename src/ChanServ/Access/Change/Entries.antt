-- ===== src/ChanServ/Access/Change/Entries.antt =====
-- chanserv.c: what a change of the access list does to the entry of a group.
use k9_chatnet.Common.{
  ℕ, ◌≡◌, ◌⊎◌, refl, sym, ap, ◌∙◌, inl, inr, Bool, true, false, ◌&&◌, List, [], ◌∷◌, ◌++◌, Option,
  none, some, ◌==◌, ==_iff, if◌then◌else◌, Bool-cases, All, zero, suc, get_elem?,
}
use k9_chatnet.Common.Int.{ℤ}
use k9_chatnet.ChanServ.Access.{ChanAccess, is_core, get_access_entry}
use k9_chatnet.ChanServ.Access.Change.{
  entry_of, cons_to, put_free, set_level, free_entry, free_place,
}

-- No group has two entries.
abbrev pub Unique : List ChanAccess → Type 0
Unique [] = Unit
Unique (a ∷ es) = All (λ b. (m : ℕ) → is_core a.nc m ≡ true → is_core b.nc m ≡ false) es × Unique es

abbrev pub new_entry : ℕ → ℤ → ChanAccess
new_entry nc level = record { in_use = true; nc = some nc; level = level; last_seen = 0 }

and_false_left : (a b : Bool) → a ≡ false → (a && b) ≡ false
and_false_left true b h = cc
and_false_left false b h = refl

and_false : (a : Bool) → (a && false) ≡ false
and_false true = refl
and_false false = refl

and_parts : (a b : Bool) → (a && b) ≡ true → (a ≡ true) × (b ≡ true)
and_parts true b h = (refl, h)
and_parts false b h = cc

pub get_access_entry-none :
    (n : ℕ) (es : List ChanAccess) → entry_of n es ≡ none → get_access_entry n es ≡ none
unfolding entry_of get_access_entry
get_access_entry-none n [] h = refl
get_access_entry-none n (a ∷ es) h = elim (Bool-cases (is_core a.nc n)) [
  | inl hit ↦ let wrong : some a ≡ none = sym (rw hit refl) ∙ h in cc
  | inr miss ↦ rw (miss, and_false a.in_use) (get_access_entry-none n es (sym (rw miss refl) ∙ h))
]

differ_core : (o : Option ℕ) (n m : ℕ) → is_core o n ≡ false → is_core o m ≡ true → (n == m) ≡ false
differ_core o n m h k = elim (Bool-cases (n == m)) [
  | inr e ↦ e
  | inl e ↦ let same : is_core o n ≡ is_core o m = ap (is_core o) ((==_iff n m).0 e) in cc
]

cons_to-some :
    (a : ChanAccess) (o : Option (List ChanAccess)) (l : List ChanAccess)
    → cons_to a o ≡ some l
    → (r : List ChanAccess) × (o ≡ some r) × (a ∷ r ≡ l)
cons_to-some a none l h = cc
cons_to-some a (some r) l h = (r, refl, cc)

entry_of-rest :
    (n : ℕ) (a : ChanAccess) (es : List ChanAccess)
    → entry_of n (a ∷ es) ≡ none
    → (is_core a.nc n ≡ false) × (entry_of n es ≡ none)
unfolding entry_of
entry_of-rest n a es h = elim (Bool-cases (is_core a.nc n)) [
  | inl hit ↦ let wrong : some a ≡ none = sym (rw hit refl) ∙ h in cc
  | inr miss ↦ (miss, sym (rw miss refl) ∙ h)
]

-- One entry in front of two lists that differ by the entry of `n`.
cons_step :
    (n m : ℕ) (a new : ChanAccess) (x y : Option ChanAccess)
    → is_core a.nc n ≡ false
    → x ≡ (if n == m then some new else y)
    → (if a.in_use && is_core a.nc m then some a else x)
      ≡ (if n == m then some new else if a.in_use && is_core a.nc m then some a else y)
cons_step n m a new x y miss e = elim (Bool-cases (a.in_use && is_core a.nc m)) [
  | inr other ↦ rw other e
  | inl own ↦ rw (own, differ_core a.nc n m miss (and_parts a.in_use (is_core a.nc m) own).1) refl
]

-- A new entry at a free place.
pub get_access_entry-put_free :
    (n m : ℕ) (level : ℤ) (es l : List ChanAccess)
    → entry_of n es ≡ none
    → put_free (new_entry n level) es ≡ some l
    → get_access_entry m l ≡ (if n == m then some (new_entry n level) else get_access_entry m es)
unfolding get_access_entry put_free
get_access_entry-put_free n m level [] l h e = cc
get_access_entry-put_free n m level (a ∷ es) l h e = elim (Bool-cases a.in_use) [
  | inr free ↦
      let at : new_entry n level ∷ es ≡ l =
        let q : some (new_entry n level ∷ es) ≡ some l = sym (rw free refl) ∙ e in cc in
      rw⁻¹ at (
        ap (λ (o : Option ChanAccess). if n == m then some (new_entry n level) else o)
          (sym (rw (and_false_left a.in_use (is_core a.nc m) free) refl)))
  | inl used ↦
      let (miss, rest) = entry_of-rest n a es h in
      let (r, put, whole) =
        cons_to-some a (put_free (new_entry n level) es) l (sym (rw used refl) ∙ e) in
      rw⁻¹ whole (
        cons_step n m a (new_entry n level) (get_access_entry m r) (get_access_entry m es) miss
          (get_access_entry-put_free n m level es r rest put))
]

-- A new entry at the end.
pub get_access_entry-append :
    (n m : ℕ) (level : ℤ) (es : List ChanAccess)
    → entry_of n es ≡ none
    → get_access_entry m (es ++ new_entry n level ∷ [])
      ≡ (if n == m then some (new_entry n level) else get_access_entry m es)
unfolding get_access_entry
get_access_entry-append n m level [] h = refl
get_access_entry-append n m level (a ∷ es) h =
    let (miss, rest) = entry_of-rest n a es h in
    cons_step n m a (new_entry n level) (get_access_entry m (es ++ new_entry n level ∷ []))
      (get_access_entry m es) miss (get_access_entry-append n m level es rest)

-- What an entry of the group was and has become.
abbrev pub Replaced :
    Option ChanAccess → Option ChanAccess → ChanAccess → Option ChanAccess → Type 0
Replaced before after a new = (after ≡ before) ⊎ ((before ≡ some a) × (after ≡ new))

cons_Replaced :
    (t : Bool) (b a : ChanAccess) (before after new : Option ChanAccess)
    → Replaced before after a new
    → Replaced (if t then some b else before) (if t then some b else after) a new
cons_Replaced true b a before after new h = inl refl
cons_Replaced false b a before after new h = h

head_Replaced :
    (t : Bool) (b : ChanAccess) (before new : Option ChanAccess)
    → Replaced (if t then some b else before) (if t then new else before) b new
head_Replaced true b before new = inr (refl, refl)
head_Replaced false b before new = inl refl

pub set_level-entry :
    (n m : ℕ) (level : ℤ) (es : List ChanAccess) (a : ChanAccess)
    → entry_of n es ≡ some a
    → Replaced
        (get_access_entry m es)
        (get_access_entry m (set_level n level es))
        a
        (some (record a { level = level }))
unfolding entry_of get_access_entry set_level
set_level-entry n m level [] a h = cc
set_level-entry n m level (b ∷ es) a h = elim (Bool-cases (is_core b.nc n)) [
  | inl hit ↦
      let same : b ≡ a = let q : some b ≡ some a = sym (rw hit refl) ∙ h in cc in
      rw⁻¹ same (
        rw hit (
          head_Replaced (b.in_use && is_core b.nc m) b (get_access_entry m es)
            (some (record b { level = level }))))
  | inr miss ↦ rw miss (
      cons_Replaced (b.in_use && is_core b.nc m) b a (get_access_entry m es)
        (get_access_entry m (set_level n level es)) (some (record a { level = level }))
        (set_level-entry n m level es a (sym (rw miss refl) ∙ h)))
]

no_entry :
    (m : ℕ) (b : ChanAccess) (es : List ChanAccess)
    → is_core b.nc m ≡ true
    → All (λ c. (m : ℕ) → is_core b.nc m ≡ true → is_core c.nc m ≡ false) es
    → get_access_entry m es ≡ none
unfolding get_access_entry
no_entry m b [] h u = refl
no_entry m b (c ∷ es) h (u, us) = rw (u m h, and_false c.in_use) (no_entry m b es h us)

pub free_entry-entry :
    (n m : ℕ) (es : List ChanAccess) (a : ChanAccess)
    → Unique es
    → entry_of n es ≡ some a
    → Replaced (get_access_entry m es) (get_access_entry m (free_entry n es)) a none
unfolding entry_of get_access_entry free_entry
free_entry-entry n m [] a u h = cc
free_entry-entry n m (b ∷ es) a (u, us) h = elim (Bool-cases (is_core b.nc n)) [
  | inl hit ↦
      let same : b ≡ a = let q : some b ≡ some a = sym (rw hit refl) ∙ h in cc in
      rw⁻¹ same (
        rw hit (elim (Bool-cases (b.in_use && is_core b.nc m)) [
          | inl own ↦
              inr (rw own refl, no_entry m b es (and_parts b.in_use (is_core b.nc m) own).1 u)
          | inr other ↦ inl (rw other refl)
        ]))
  | inr miss ↦ rw miss (
      cons_Replaced (b.in_use && is_core b.nc m) b a (get_access_entry m es)
        (get_access_entry m (free_entry n es)) none
        (free_entry-entry n m es a us (sym (rw miss refl) ∙ h)))
]

-- An entry that is not in use is nobody's.
pub get_access_entry-unused :
    (m : ℕ) (a : ChanAccess) (es : List ChanAccess)
    → a.in_use ≡ false
    → get_access_entry m (es ++ a ∷ []) ≡ get_access_entry m es
unfolding get_access_entry
get_access_entry-unused m a [] h = rw (and_false_left a.in_use (is_core a.nc m) h) refl
get_access_entry-unused m a (b ∷ es) h =
    ap (λ (o : Option ChanAccess). if b.in_use && is_core b.nc m then some b else o)
      (get_access_entry-unused m a es h)

pub free_place-entry :
    (i m : ℕ) (es : List ChanAccess) (a : ChanAccess)
    → Unique es
    → get_elem? es i ≡ some a
    → Replaced (get_access_entry m es) (get_access_entry m (free_place i es)) a none
unfolding get_access_entry free_place
free_place-entry i m [] a u h = cc
free_place-entry zero m (b ∷ es) a (u, us) h =
    let same : b ≡ a = let q : some b ≡ some a = h in cc in
    rw⁻¹ same (elim (Bool-cases (b.in_use && is_core b.nc m)) [
      | inl own ↦ inr (rw own refl, no_entry m b es (and_parts b.in_use (is_core b.nc m) own).1 u)
      | inr other ↦ inl (rw other refl)
    ])
free_place-entry (suc i) m (b ∷ es) a (u, us) h =
    cons_Replaced (b.in_use && is_core b.nc m) b a (get_access_entry m es)
      (get_access_entry m (free_place i es)) none (free_place-entry i m es a us h)

-- An entry that is freed is no second one of any group.
pub free_place-Unique : (i : ℕ) (es : List ChanAccess) → Unique es → Unique (free_place i es)
unfolding free_place
free_place-Unique i [] u = u
free_place-Unique zero (a ∷ es) (u, us) = (none_has es, us)
  where
    none_has :
        (l : List ChanAccess)
        → All (λ b. (m : ℕ) → is_core none m ≡ true → is_core b.nc m ≡ false) l
    none_has [] = tt
    none_has (b ∷ l) = (λ m h. cc, none_has l)
free_place-Unique (suc i) (a ∷ es) (u, us) = (others i es u, free_place-Unique i es us)
  where
    others :
        (k : ℕ) (l : List ChanAccess)
        → All (λ b. (m : ℕ) → is_core a.nc m ≡ true → is_core b.nc m ≡ false) l
        → All (λ b. (m : ℕ) → is_core a.nc m ≡ true → is_core b.nc m ≡ false) (free_place k l)
    others k [] h = tt
    others zero (b ∷ l) (h, hs) = (λ m e. refl, hs)
    others (suc k) (b ∷ l) (h, hs) = (h, others k l hs)
