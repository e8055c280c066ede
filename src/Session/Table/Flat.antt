-- ===== src/Session/Table/Flat.antt =====
-- sessions.c: the table as one list of sessions in the order of the search.
use k9_chatnet.Common.{
  ◌+◌, ◌≡◌, refl, sym, ◌∙◌, ap, ◌↔◌, inl, inr, true, false, List, [], ◌∷◌, ◌++◌, Bytes, Option,
  none, some, arith, IsText, if◌then◌else◌, Bool-cases, length, All, All-middle,
}
use k9_chatnet.Common.Int.{ℤ, neg}
use k9_chatnet.Text.Case.{same_text, same_text_iff, is_zero, stricmp, stricmp_swap}
use k9_chatnet.Session.Types.{Session}

is_zero-neg : (a : ℤ) → is_zero (neg a) ≡ is_zero a
is_zero-neg a = ground arith

pub same_text_sym : (s t : Bytes) → same_text s t ≡ same_text t s
same_text_sym s t = sym (ap is_zero (stricmp_swap s t) ∙ is_zero-neg (stricmp s t))

-- Names that are the same compare alike with every other.
pub same_text_cong :
    (s t u : Bytes)
    → IsText s
    → IsText t
    → IsText u
    → same_text s t ≡ true
    → same_text s u ≡ same_text t u
same_text_cong s t u hs ht hu e = elim (Bool-cases (same_text s u)) [
  | inl yes' ↦
      yes'
      ∙ sym (
          (same_text_iff t u ht hu).1
            (sym ((same_text_iff s t hs ht).0 e) ∙ (same_text_iff s u hs hu).0 yes'))
  | inr no' ↦ elim (Bool-cases (same_text t u)) [
    | inl yes' ↦
        (same_text_iff s u hs hu).1
          ((same_text_iff s t hs ht).0 e ∙ (same_text_iff t u ht hu).0 yes')
        ∙ sym yes'
    | inr no'' ↦ no' ∙ sym no''
  ]
]

abbrev pub sessions : List (List Session) → List Session
sessions [] = []
sessions (b ∷ t) = b ++ sessions t

unfoldable pub find : Bytes → List Session → Option Session
find k [] = none
find k (s ∷ l) = if same_text k s.host then some s else find k l

-- No session of the list is for the host.
abbrev pub Absent : Bytes → List Session → Type 0
Absent k = All (λ s. same_text k s.host ≡ false)

abbrev pub AllText : List Session → Type 0
AllText = All (λ s. IsText s.host)

-- No two sessions are for one host.
abbrev pub Unique : List Session → Type 0
Unique [] = Unit
Unique (s ∷ l) = Absent s.host l × Unique l

pub find-Absent : (k : Bytes) (l : List Session) → Absent k l → find k l ≡ none
unfolding find
find-Absent k [] h = refl
find-Absent k (s ∷ l) h = rw (h.0) (find-Absent k l h.1)

pub Absent-find : (k : Bytes) (l : List Session) → find k l ≡ none → Absent k l
unfolding find
Absent-find k [] h = tt
Absent-find k (s ∷ l) h = ground (arith, Absent-find k l)

pub Absent-cong :
    (j k : Bytes) (l : List Session)
    → IsText j
    → IsText k
    → AllText l
    → same_text j k ≡ true
    → Absent j l
    → Absent k l
Absent-cong j k [] hj hk hl e h = tt
Absent-cong j k (s ∷ l) hj hk hl e h =
    (sym (same_text_cong j k s.host hj hk hl.0 e) ∙ h.0, Absent-cong j k l hj hk hl.1 e h.1)

-- A session put into a list in which its host is absent is found under that host, and under no
-- other.
pub find-middle :
    (k : Bytes) (xs : List Session) (s : Session) (ys : List Session)
    → IsText k
    → AllText (s ∷ xs)
    → Absent s.host xs
    → find k (xs ++ s ∷ ys) ≡ (if same_text k s.host then some s else find k (xs ++ ys))
unfolding find
find-middle k [] s ys hk ht h = refl
find-middle k (x ∷ xs) s ys hk ht h = ground (
  arith,
  find-middle k xs s ys hk (ht.0, ht.1.1) h.1,
  same_text_cong k s.host x.host hk ht.0 ht.1.0,
)

pub Unique-middle :
    (xs : List Session) (s : Session) (ys : List Session)
    → Unique (xs ++ s ∷ ys) ↔ (Absent s.host (xs ++ ys) × Unique (xs ++ ys))
Unique-middle [] s ys = (λ h. h, λ h. h)
Unique-middle (x ∷ xs) s ys =
    let ih = Unique-middle xs s ys in
    let split = All-middle (λ (y : Session). same_text x.host y.host ≡ false) xs s ys in
    (
      λ h. (
        (same_text_sym s.host x.host ∙ (split.0 h.0).0, (ih.0 h.1).0),
        ((split.0 h.0).1, (ih.0 h.1).1),
      ),
      λ h. (split.1 (same_text_sym x.host s.host ∙ h.0.0, h.1.0), ih.1 (h.0.1, h.1.1)),
    )

pub length-middle :
    (xs : List Session) (s : Session) (ys : List Session)
    → length (xs ++ s ∷ ys) ≡ length (xs ++ ys) + 1
length-middle [] s ys = omega arith
length-middle (x ∷ xs) s ys = omega (arith, length-middle xs s ys)

-- The names of one host find one session.
pub find-cong :
    (j k : Bytes) (l : List Session)
    → IsText j
    → IsText k
    → AllText l
    → same_text j k ≡ true
    → find j l ≡ find k l
unfolding find
find-cong j k [] tj tk tl e = refl
find-cong j k (s ∷ l) tj tk tl e =
    rw (same_text_cong j k s.host tj tk tl.0 e, find-cong j k l tj tk tl.1 e)
