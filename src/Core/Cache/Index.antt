-- ===== src/Core/Cache/Index.antt =====
-- cache.rs: the two indexes against the records that were added.
use bethkit.Prelude.{
  ℕ, suc, ◌+◌, ◌≡◌, refl, sym, ap, ◌∙◌, arith, List, [], ◌∷◌, ◌++◌, Option, none, some, Bool, true,
  false,
}
use bethkit.Prelude.{Bool-cases, Option-cases, inl, inr, if◌then◌else◌}
use bethkit.Prelude.Dict.{Dict, lookup, insert, lookup-insert}
use bethkit.Prelude.Keys.{bytes_eq, bytes_key, bytes_eq_iff}
use bethkit.Core.Signature.{Signature}
use bethkit.Core.Types.{FormId}
use bethkit.Core.LoadOrder.{GlobalFormId}
use bethkit.Core.Cache.Data.{
  gfid_same, gfid_same_iff, gfid_key, Winner, Triple, Indexes, or_empty, retain_others, drop_from,
  drop_stale, push_gfid, index_one, index_all,
}

-- The last record of a plugin that has an id.
unfoldable pub last_of : GlobalFormId → List Triple → Option (FormId × Signature)
last_of gfid [] = none
last_of gfid (t ∷ ts) = elim (last_of gfid ts) [
  | some found ↦ some found
  | none ↦ (if gfid_same gfid t.0 then some (t.1, t.2) else none)
]

abbrev pub winner_or : ℕ → Option (FormId × Signature) → Option Winner → Option Winner
winner_or index none before = before
winner_or index (some (raw, sig)) before = some (index, raw, sig)

later_wins :
    (index raw : ℕ) (sig : Signature) (here : Bool) (found : Option (FormId × Signature))
    (before : Option Winner)
    → winner_or index found (if here then some (index, raw, sig) else before)
      ≡ winner_or index
          (elim found [ some f ↦ some f | none ↦ (if here then some (raw, sig) else none) ])
          before
later_wins index raw sig here (some f) before = refl
later_wins index raw sig true none before = refl
later_wins index raw sig false none before = refl

-- Among the records of one plugin the last one with an id wins, and it wins over those of the
-- plugins before; an id that the plugin has no record for keeps its winner.
pub lookup-index_all :
    (index : ℕ) (ts : List Triple) (indexes : Indexes) (gfid : GlobalFormId)
    → lookup gfid (index_all index ts indexes).0
      ≡ winner_or index (last_of gfid ts) (lookup gfid indexes.0)
unfolding index_all last_of
lookup-index_all index [] indexes gfid = refl
lookup-index_all index ((g, raw, sig) ∷ ts) indexes gfid =
    lookup-index_all index ts (index_one index (g, raw, sig) indexes) gfid
    ∙ ap (winner_or index (last_of gfid ts)) (lookup-insert g gfid (index, raw, sig) indexes.0)
    ∙ later_wins index raw sig (gfid_same gfid g) (last_of gfid ts) (lookup gfid indexes.0)

-- How often an id stands in a list.
unfoldable pub occurrences : GlobalFormId → List GlobalFormId → ℕ
occurrences g [] = 0
occurrences g (h ∷ hs) = let later = occurrences g hs in if gfid_same g h then suc later else later

abbrev pub bucket : Signature → Dict Signature (List GlobalFormId) → List GlobalFormId
bucket sig by_signature = or_empty (lookup sig by_signature)

-- Once if the winner has the signature, and else not at all.
abbrev pub wins_as : Signature → Option Winner → ℕ
wins_as sig none = 0
wins_as sig (some (index, raw, s)) = if bytes_eq sig s then 1 else 0

-- Each id stands in the list of its winner's signature, once, and in no other list.
abbrev pub IsConsistent : Indexes → Type 0
IsConsistent indexes =
    (gfid : GlobalFormId) (sig : Signature)
    → occurrences gfid (bucket sig indexes.1) ≡ wins_as sig (lookup gfid indexes.0)

same_left : (g h x : GlobalFormId) → gfid_same x h ≡ true → gfid_same g x ≡ gfid_same g h
same_left g h x e = ap (gfid_same g) ((gfid_same_iff x h).0 e)

other_left :
    (g h x : GlobalFormId) → gfid_same x h ≡ false → gfid_same g h ≡ true → gfid_same g x ≡ false
other_left g h x other same = elim (Bool-cases (gfid_same g x)) [
  | inr e ↦ e
  | inl e ↦
      cc ((gfid_same_iff x h).1 (sym ((gfid_same_iff g x).0 e) ∙ (gfid_same_iff g h).0 same), other)
]

removed :
    (gh gx : Bool) (o r : ℕ)
    → r ≡ (if gh then 0 else o)
    → (gh ≡ true → gx ≡ false)
    → (if gx then suc r else r) ≡ (if gh then 0 else (if gx then suc o else o))
removed true gx o r e apart = rw (apart refl) e
removed false true o r e apart = ap suc e
removed false false o r e apart = e

removed_same :
    (gh gx : Bool) (o r : ℕ)
    → r ≡ (if gh then 0 else o)
    → gx ≡ gh
    → r ≡ (if gh then 0 else (if gx then suc o else o))
removed_same true gx o r e same = e
removed_same false gx o r e same = rw (same) e

nothing_left : (b : Bool) → (let z : ℕ = 0 in z ≡ (if b then 0 else 0))
nothing_left true = refl
nothing_left false = refl

occurrences-retain_others :
    (g h : GlobalFormId) (xs : List GlobalFormId)
    → occurrences g (retain_others h xs) ≡ (if gfid_same g h then 0 else occurrences g xs)
unfolding occurrences retain_others
occurrences-retain_others g h [] = nothing_left (gfid_same g h)
occurrences-retain_others g h (x ∷ xs) = elim (Bool-cases (gfid_same x h)) [
  | inl same ↦
      ap (λ b. occurrences g (if b then retain_others h xs else x ∷ retain_others h xs)) same
      ∙ removed_same (gfid_same g h) (gfid_same g x) (occurrences g xs) _
          (occurrences-retain_others g h xs) (same_left g h x same)
  | inr other ↦
      ap (λ b. occurrences g (if b then retain_others h xs else x ∷ retain_others h xs)) other
      ∙ removed (gfid_same g h) (gfid_same g x) (occurrences g xs) _
          (occurrences-retain_others g h xs) (other_left g h x other)
]

pushed :
    (gx gh : Bool) (o r : ℕ)
    → r ≡ o + (if gh then 1 else 0)
    → (if gx then suc r else r) ≡ (if gx then suc o else o) + (if gh then 1 else 0)
pushed true gh o r e = omega (arith, e)
pushed false gh o r e = e

occurrences-push :
    (g h : GlobalFormId) (xs : List GlobalFormId)
    → occurrences g (xs ++ h ∷ []) ≡ occurrences g xs + (if gfid_same g h then 1 else 0)
unfolding occurrences
occurrences-push g h [] = one_more (gfid_same g h)
  where
    one_more : (b : Bool) → (if b then suc 0 else 0) ≡ 0 + (if b then 1 else 0)
    one_more true = refl
    one_more false = refl
occurrences-push g h (x ∷ xs) =
    pushed (gfid_same g x) (gfid_same g h) (occurrences g xs) _ (occurrences-push g h xs)

-- The list of a signature after one insertion.
bucket-insert :
    (s t : Signature) (xs : List GlobalFormId) (by_signature : Dict Signature (List GlobalFormId))
    → bucket t (insert s xs by_signature) ≡ (if bytes_eq t s then xs else bucket t by_signature)
unfolding bytes_key
bucket-insert s t xs by_signature =
    ap or_empty (lookup-insert s t xs by_signature) ∙ chosen (bytes_eq t s)
  where
    chosen :
        (b : Bool)
        → or_empty (if b then some xs else lookup t by_signature)
          ≡ (if b then xs else bucket t by_signature)
    chosen true = refl
    chosen false = refl

-- An id that is not in a list does not leave it.
gone :
    (g h : GlobalFormId) (xs : List GlobalFormId)
    → occurrences h xs ≡ 0
    → occurrences g xs ≡ (if gfid_same g h then 0 else occurrences g xs)
gone g h xs nowhere = elim (Bool-cases (gfid_same g h)) [
  | inl same ↦
      ap (λ x. occurrences x xs) ((gfid_same_iff g h).0 same)
      ∙ nowhere
      ∙ ap (λ b. if b then 0 else occurrences g xs) (sym same)
  | inr other ↦ ap (λ b. if b then 0 else occurrences g xs) (sym other)
]

unlisted :
    (t old : Signature) (by_signature : Dict Signature (List GlobalFormId))
    → bytes_eq t old ≡ true
    → lookup old by_signature ≡ none
    → (h : GlobalFormId) → occurrences h (bucket t by_signature) ≡ 0
unfolding occurrences
unlisted t old by_signature same nothing h =
    ap (λ o. occurrences h (or_empty o))
      (ap (λ k. lookup k by_signature) ((bytes_eq_iff t old).0 same) ∙ nothing)

-- Removing the stale entry takes the id out of the list where it stood.
drop_stale-occurrences :
    (g h : GlobalFormId) (t : Signature) (before : Option Winner)
    (by_signature : Dict Signature (List GlobalFormId))
    → occurrences h (bucket t by_signature) ≡ wins_as t before
    → occurrences g (bucket t (drop_stale h before by_signature))
      ≡ (if gfid_same g h then 0 else occurrences g (bucket t by_signature))
unfolding drop_stale
drop_stale-occurrences g h t none by_signature stood = gone g h (bucket t by_signature) stood
drop_stale-occurrences g h t (some (index, raw, old)) by_signature stood =
    elim (Option-cases (lookup old by_signature)) [
      | inl nothing ↦
          ap (λ o. occurrences g (bucket t (drop_from h old o by_signature))) nothing
          ∙ (gone g h (bucket t by_signature) (elim (Bool-cases (bytes_eq t old)) [
            | inl same ↦ unlisted t old by_signature same nothing h
            | inr other ↦ stood ∙ ap (λ b. if b then 1 else 0) other
          ]))
      | inr (listed, found) ↦
          ap (λ o. occurrences g (bucket t (drop_from h old o by_signature))) found
          ∙ (ap (occurrences g) (bucket-insert old t (retain_others h listed) by_signature)
              ∙ elim (Bool-cases (bytes_eq t old)) [
                | inl same ↦
                    ap
                      (λ b.
                        occurrences g (if b then retain_others h listed else bucket t by_signature))
                      same
                    ∙ occurrences-retain_others g h listed
                    ∙ ap (λ xs. if gfid_same g h then 0 else occurrences g xs)
                        (sym (
                          ap or_empty (
                            ap (λ k. lookup k by_signature) ((bytes_eq_iff t old).0 same) ∙ found)))
                | inr other ↦
                    ap
                      (λ b.
                        occurrences g (if b then retain_others h listed else bucket t by_signature))
                      other
                    ∙ gone g h (bucket t by_signature) (stood ∙ ap (λ b. if b then 1 else 0) other)
              ])
    ]

wins_here :
    (t s : Signature) (index raw : ℕ) (b : Bool)
    → bytes_eq t s ≡ b
    → wins_as t (some (index, raw, s)) ≡ (if b then 1 else 0)
wins_here t s index raw b e = ap (λ x. if x then 1 else 0) e

index_one-IsConsistent :
    (entry_index : ℕ) (t : Triple) (indexes : Indexes)
    → IsConsistent indexes
    → IsConsistent (index_one entry_index t indexes)
unfolding index_one push_gfid
index_one-IsConsistent entry_index (h, raw, s) (ids, sigs) consistent g t =
    ap (occurrences g) (bucket-insert s t (bucket s dropped ++ h ∷ []) dropped)
    ∙ elim (Bool-cases (bytes_eq t s)) [
      | inl same ↦
          ap (λ b. occurrences g (if b then bucket s dropped ++ h ∷ [] else bucket t dropped)) same
          ∙ occurrences-push g h (bucket s dropped)
          ∙ ap (λ o. o + (if gfid_same g h then 1 else 0)) (left s)
          ∙ listed_now (gfid_same g h) (occurrences g (bucket s sigs)) (lookup g ids)
              (consistent g s
                ∙ ap (λ k. wins_as k (lookup g ids)) (sym ((bytes_eq_iff t s).0 same)))
              same
          ∙ ap (wins_as t) (sym (lookup-insert h g (entry_index, raw, s) ids))
      | inr other ↦
          ap (λ b. occurrences g (if b then bucket s dropped ++ h ∷ [] else bucket t dropped)) other
          ∙ left t
          ∙ unlisted_now (gfid_same g h) (occurrences g (bucket t sigs)) (lookup g ids)
              (consistent g t) other
          ∙ ap (wins_as t) (sym (lookup-insert h g (entry_index, raw, s) ids))
    ]
  where
    dropped : Dict Signature (List GlobalFormId)
    dropped = drop_stale h (lookup h ids) sigs

    left :
        (k : Signature)
        → occurrences g (bucket k dropped)
          ≡ (if gfid_same g h then 0 else occurrences g (bucket k sigs))
    left k = drop_stale-occurrences g h k (lookup h ids) sigs (consistent h k)

    listed_now :
        (b : Bool) (o : ℕ) (before : Option Winner)
        → o ≡ wins_as t before
        → bytes_eq t s ≡ true
        → (if b then 0 else o) + (if b then 1 else 0)
          ≡ wins_as t (if b then some (entry_index, raw, s) else before)
    listed_now true o before stood same = sym (ap (λ x. if x then 1 else 0) same)
    listed_now false o before stood same = omega (arith, stood)

    unlisted_now :
        (b : Bool) (o : ℕ) (before : Option Winner)
        → o ≡ wins_as t before
        → bytes_eq t s ≡ false
        → (if b then 0 else o) ≡ wins_as t (if b then some (entry_index, raw, s) else before)
    unlisted_now true o before stood other = sym (ap (λ x. if x then 1 else 0) other)
    unlisted_now false o before stood other = stood

pub index_all-IsConsistent :
    (entry_index : ℕ) (ts : List Triple) (indexes : Indexes)
    → IsConsistent indexes
    → IsConsistent (index_all entry_index ts indexes)
unfolding index_all
index_all-IsConsistent entry_index [] indexes consistent = consistent
index_all-IsConsistent entry_index (t ∷ ts) indexes consistent =
    index_all-IsConsistent entry_index ts (index_one entry_index t indexes)
      (index_one-IsConsistent entry_index t indexes consistent)
