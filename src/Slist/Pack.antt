-- ===== src/Slist/Pack.antt =====
-- slist.c: `slist_pack` removes in place what a filter would keep out.
use k9_chatnet.Common.{
  [], ℕ, zero, suc, ◌-◌, ◌≤◌, ◌<◌, ◌≡◌, refl, sym, ap, ◌∙◌, inl, inr, Bool, List, ◌∷◌, ◌++◌, Option,
  none, some, arith, length, take, drop, get_elem?, append_assoc, append-nil, drop-get_elem?,
  take-get_elem?, Option-cases,
}
use k9_chatnet.Slist.{Opts, SList, erase, slist_delete, pack_one, pack_below, slist_pack, free_at}
use k9_chatnet.Slist.Bounds.{slist_delete-inside, length-erase}

-- The entries that are not NULL.
unfoldable pub present : {A : Type 0} → List (Option A) → List (Option A)
present [] = []
present (none ∷ es) = present es
present (some x ∷ es) = some x ∷ present es

module _ {A : Type 0} where
  pub present-append : (es fs : List (Option A)) → present (es ++ fs) ≡ present es ++ present fs
  unfolding present
  present-append [] fs = refl
  present-append (none ∷ es) fs = present-append es fs
  present-append (some x ∷ es) fs = ap (◌∷◌ (some x)) (present-append es fs)

  take-erase : (i : ℕ) (es : List A) → take i (erase es i) ≡ take i es
  unfolding erase
  take-erase zero es = refl
  take-erase (suc i) [] = refl
  take-erase (suc i) (e ∷ es) = ap (◌∷◌ e) (take-erase i es)

  drop-erase : (i : ℕ) (es : List A) → drop i (erase es i) ≡ drop (suc i) es
  unfolding erase
  drop-erase zero [] = refl
  drop-erase zero (e ∷ es) = refl
  drop-erase (suc i) [] = refl
  drop-erase (suc i) (e ∷ es) = drop-erase i es

  get_elem?-less : (i : ℕ) (es : List A) (e : A) → get_elem? es i ≡ some e → i < length es
  get_elem?-less i [] e h = cc
  get_elem?-less zero (y ∷ es) e h = omega arith
  get_elem?-less (suc i) (y ∷ es) e h = omega (arith, get_elem?-less i es e h)

  get_elem?-past : (i : ℕ) (es : List A) → get_elem? es i ≡ none → length es ≤ i
  get_elem?-past i [] h = omega arith
  get_elem?-past zero (y ∷ es) h = cc
  get_elem?-past (suc i) (y ∷ es) h = omega (arith, get_elem?-past i es h)

module _ {A : Type 0} (opts : Opts A) where
  -- The list with the entries `es`, all of which are there.
  abbrev pub holding : SList A → List (Option A) → SList A
  holding l es = record l { entries = es; capacity = length es }

  -- The entries that are left when the loop has still to go down from index `i`.
  abbrev remainder : ℕ → List (Option A) → List (Option A)
  remainder i es = present (take i es) ++ drop i es

  remainder_null :
      (i : ℕ) (es : List (Option A))
      → get_elem? es i ≡ some none
      → remainder i (erase es i) ≡ remainder (suc i) es
  unfolding present
  remainder_null i es at =
      rw
        (
          take-erase i es,
          drop-erase i es,
          take-get_elem? i es none at,
          present-append (take i es) (none ∷ []),
          append-nil,
        )
        refl

  remainder_kept :
      (i : ℕ) (es : List (Option A)) (x : A)
      → get_elem? es i ≡ some (some x)
      → remainder i es ≡ remainder (suc i) es
  unfolding present
  remainder_kept i es x at =
      rw
        (
          drop-get_elem? i es (some x) at,
          take-get_elem? i es (some x) at,
          present-append (take i es) (some x ∷ []),
        )
        (sym (append_assoc (present (take i es)) (some x ∷ []) (drop (suc i) es)))

  null_erased :
      (l : SList A) (i : ℕ)
      → l.capacity ≡ length l.entries
      → i < length l.entries
      → get_elem? l.entries i ≡ some none
      → (slist_delete opts l i).0 ≡ holding l (erase l.entries i)
  null_erased l i fits inside at =
      let shorter : l.capacity - 1 ≡ length (erase l.entries i) =
        omega (arith, length-erase l.entries i inside, fits) in
      ap (λ (r : SList A × Bool). r.0) (slist_delete-inside opts l i fits inside) ∙ (λ k. record l {
        entries = erase l.entries i;
        capacity = shorter k;
        freed = free_at opts (at k) l.freed;
      })

  pack_below-remainder :
      (i : ℕ) (l : SList A)
      → l.capacity ≡ length l.entries
      → i ≤ length l.entries
      → pack_below opts i l ≡ holding l (remainder i l.entries)
  unfolding pack_below present
  pack_below-remainder zero l fits h = λ k. record l { capacity = fits k }
  pack_below-remainder (suc i) l fits h = elim (Option-cases (get_elem? l.entries i)) [
    | inl past ↦ absurd (omega (arith, get_elem?-past i l.entries past))
    | inr (none, at) ↦
        let shorter = length-erase l.entries i h in
        ap (λ o. pack_below opts i (pack_one opts l i o)) at
        ∙ ap (pack_below opts i) (null_erased l i fits h at)
        ∙ pack_below-remainder i (holding l (erase l.entries i)) refl (omega (arith, shorter))
        ∙ ap (holding l) (remainder_null i l.entries at)
    | inr (some x, at) ↦
        ap (λ o. pack_below opts i (pack_one opts l i o)) at
        ∙ pack_below-remainder i l fits (omega arith)
        ∙ ap (holding l) (remainder_kept i l.entries x at)
  ]

  take-length : (es : List (Option A)) → take (length es) es ≡ es
  take-length [] = refl
  take-length (e ∷ es) = ap (◌∷◌ e) (take-length es)

  drop-length : (es : List (Option A)) → drop (length es) es ≡ []
  drop-length [] = refl
  drop-length (e ∷ es) = drop-length es

  -- The deletions from the last entry to the first leave exactly the entries that are not NULL, in
  -- their order, with their number for the capacity.
  pub slist_pack-present :
      (l : SList A)
      → l.capacity ≡ length l.entries
      → slist_pack opts l ≡ holding l (present l.entries)
  unfolding slist_pack
  slist_pack-present l fits =
      pack_below-remainder (length l.entries) l fits (omega arith)
      ∙ ap (holding l)
          (rw (take-length l.entries, drop-length l.entries) (append-nil (present l.entries)))
