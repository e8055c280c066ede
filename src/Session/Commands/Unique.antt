-- ===== src/Session/Commands/Unique.antt =====
-- sessions.c: no two exceptions have one mask, whatever the commands do.
use k9_chatnet.Common.{
  ℕ, zero, suc, ◌+◌, ◌≡◌, refl, sym, ◌∙◌, ap, subst, ◌↔◌, inl, inr, true, false, List, [], ◌∷◌,
  ◌++◌, Bytes, take, length, leb, if◌then◌else◌, arith, All, All-append, Bool-cases, append-nil,
}
use k9_chatnet.Text.Case.{same_text}
use k9_chatnet.Session.Types.{Exception, Config, Effect}
use k9_chatnet.Session.Exceptions.{
  remove_at, added_entry, exception_add, exception_del, expire_exceptions, mask_is_known,
}
use k9_chatnet.Session.Exceptions.Expiry.{live, expire_exceptions-live}
use k9_chatnet.Session.Table.Flat.{same_text_sym}

-- No exception has the mask, case aside.
abbrev pub NoMask : Bytes → List Exception → Type 0
NoMask mask = All (λ e. same_text mask e.mask ≡ false)

abbrev pub UniqueMasks : List Exception → Type 0
UniqueMasks [] = Unit
UniqueMasks (e ∷ es) = NoMask e.mask es × UniqueMasks es

mask_is_known-NoMask :
    (mask : Bytes) (es : List Exception) → mask_is_known mask es ≡ false → NoMask mask es
mask_is_known-NoMask mask [] h = tt
mask_is_known-NoMask mask (e ∷ es) h = ground (arith, mask_is_known-NoMask mask es)

NoMask-mask_is_known :
    (mask : Bytes) (es : List Exception) → NoMask mask es → mask_is_known mask es ≡ false
NoMask-mask_is_known mask [] h = refl
NoMask-mask_is_known mask (e ∷ es) h = rw h.0 (NoMask-mask_is_known mask es h.1)

UniqueMasks-append :
    (es : List Exception) (e : Exception)
    → UniqueMasks es
    → NoMask e.mask es
    → UniqueMasks (es ++ e ∷ [])
UniqueMasks-append [] e u n = (tt, tt)
UniqueMasks-append (x ∷ es) e u n = (
  (All-append _ es (e ∷ [])).1 (u.0, (same_text_sym x.mask e.mask ∙ n.0, tt)),
  UniqueMasks-append es e u.1 n.1,
)

NoMask-remove_at :
    (mask : Bytes) (es : List Exception) (i : ℕ) → NoMask mask es → NoMask mask (remove_at es i)
unfolding remove_at
NoMask-remove_at mask [] zero h = tt
NoMask-remove_at mask [] (suc i) h = tt
NoMask-remove_at mask (e ∷ es) zero h = h.1
NoMask-remove_at mask (e ∷ es) (suc i) h = (h.0, NoMask-remove_at mask es i h.1)

UniqueMasks-remove_at :
    (es : List Exception) (i : ℕ) → UniqueMasks es → UniqueMasks (remove_at es i)
unfolding remove_at
UniqueMasks-remove_at [] zero u = tt
UniqueMasks-remove_at [] (suc i) u = tt
UniqueMasks-remove_at (e ∷ es) zero u = u.1
UniqueMasks-remove_at (e ∷ es) (suc i) u =
    (NoMask-remove_at e.mask es i u.0, UniqueMasks-remove_at es i u.1)

NoMask-live :
    (mask : Bytes) (now : ℕ) (es : List Exception) → NoMask mask es → NoMask mask (live now es)
unfolding live
NoMask-live mask now [] h = tt
NoMask-live mask now (e ∷ es) h = ground (arith, NoMask-live mask now es)

UniqueMasks-live : (now : ℕ) (es : List Exception) → UniqueMasks es → UniqueMasks (live now es)
unfolding live
UniqueMasks-live now [] u = tt
UniqueMasks-live now (e ∷ es) u = ground (arith, UniqueMasks-live now es, NoMask-live e.mask now es)

-- The ways in which the list changes between two commands that number it.
pub data Change : Type 0 where
  adds : ℕ → Bytes → ℕ → Bytes → Bytes → ℕ → Change
  deletes : ℕ → Change
  expires : Config → ℕ → Change

pub change : Change → List Exception → List Exception
change (adds now mask limit reason who expiry) es =
    (exception_add now mask limit reason who expiry es).0
change (deletes i) es = (exception_del i es).0
change (expires c now) es = (expire_exceptions c now es).0

-- Additions, deletions and expiry keep the masks different.
pub change-UniqueMasks :
    (c : Change) (es : List Exception) → UniqueMasks es → UniqueMasks (change c es)
unfolding change exception_add exception_del
change-UniqueMasks (adds now mask limit reason who expiry) es u =
    elim (Bool-cases (mask_is_known mask es)) [
      | inl known ↦
          let same : change (adds now mask limit reason who expiry) es ≡ es = rw (known, change) in
          subst UniqueMasks (sym same) u
      | inr fresh ↦
          let e : Exception = added_entry now mask limit reason who expiry es in
          let longer : change (adds now mask limit reason who expiry) es ≡ es ++ e ∷ [] =
            rw (fresh, change) in
          subst UniqueMasks (sym longer)
            (UniqueMasks-append es e u (mask_is_known-NoMask mask es fresh))
    ]
change-UniqueMasks (deletes i) es u = elim (Bool-cases (leb (length es) i)) [
  | inl past ↦
      let same : change (deletes i) es ≡ es = rw (past, change) in subst UniqueMasks (sym same) u
  | inr inside ↦
      let less : change (deletes i) es ≡ remove_at es i = rw (inside, change) in
      subst UniqueMasks (sym less) (UniqueMasks-remove_at es i u)
]
change-UniqueMasks (expires c now) es u =
    subst UniqueMasks
      (sym (ap (λ (r : List Exception × List Effect). r.0) (expire_exceptions-live c now es)))
      (UniqueMasks-live now es u)

length-snoc : (es : List Exception) (e : Exception) → length (es ++ e ∷ []) ≡ length es + 1
length-snoc [] e = omega arith
length-snoc (x ∷ es) e = omega (arith, length-snoc es e)

take-length : (es fs : List Exception) → take (length es) (es ++ fs) ≡ es
take-length [] fs = refl
take-length (x ∷ es) fs = ap (◌∷◌ x) (take-length es fs)

-- `exception_add` returns 1 exactly when no exception has the mask, case aside. The exceptions before
-- the call stay in front, and one entry is behind them when it returns 1, none when it returns 0.
pub exception_add-NoMask_iff :
    (now : ℕ) (mask : Bytes) (limit : ℕ) (reason who : Bytes) (expiry : ℕ) (es : List Exception)
    → let (es', added) = exception_add now mask limit reason who expiry es in
      ((added ≡ true) ↔ NoMask mask es)
      × (length es' ≡ (if added then length es + 1 else length es))
      × (take (length es) es' ≡ es)
unfolding exception_add
exception_add-NoMask_iff now mask limit reason who expiry es =
    elim (Bool-cases (mask_is_known mask es)) [
      | inl known ↦ rw known (
        (λ e. absurd (cc), λ n. absurd (cc (known, NoMask-mask_is_known mask es n))),
        refl,
        ap (take (length es)) (sym (append-nil es)) ∙ take-length es [],
      )
      | inr fresh ↦
          rw fresh (
            (λ e. mask_is_known-NoMask mask es fresh, λ n. refl),
            length-snoc es _,
            take-length es _,
          )
    ]
