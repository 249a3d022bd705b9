-- ===== src/Core/Patcher/Accepted.antt =====
-- patcher.rs: an order that `reorder_group_records` accepts is a permutation of the group's records.
use bethkit.Prelude.{
  ℕ, suc, ◌+◌, ◌≡◌, refl, sym, ap, ◌∙◌, arith, List, [], ◌∷◌, Option, none, some, Bool, true, false,
  not, ◌||◌,
}
use bethkit.Prelude.{length, All, Bool-cases, inl, inr, ◌==◌, ==_iff, if◌then◌else◌}
use bethkit.Prelude.Dict.{insert}
use bethkit.Prelude.Result.{ok, err, ok_unique, bind_ok}
use mathlib.Core.List.Permᴰ
use mathlib.Core.List.{Permᴰ}
use bethkit.Core.Types.{FormId}
use bethkit.Core.Error.{CoreError, invalid_group_record_order, format}
use bethkit.Core.Group.Data.{
  Group, record_child, group_child, GroupChildren, nil, cons, children, source_range_of,
}
use bethkit.Core.Patcher.Data.{PluginPatcher, range_key}
use bethkit.Core.Patcher.Order.{contains, ok_or, expected_of, supplied_of, reorder_group_records}

-- The ids of a group's children, if all of them are records.
unfoldable pub direct_ids : GroupChildren → Option (List FormId)
direct_ids nil = some []
direct_ids (cons (group_child g) rest) = none
direct_ids (cons (record_child r) rest) = elim (direct_ids rest) [
  | none ↦ none
  | some ids ↦ some (r.header.form_id ∷ ids)
]

-- No id twice, and none of those seen before.
unfoldable pub Fresh : List FormId → List FormId → Type 0
Fresh seen [] = Unit
Fresh seen (x ∷ xs) = (contains x seen ≡ false) × Fresh (x ∷ seen) xs

rev_onto : List FormId → List FormId → List FormId
rev_onto [] seen = seen
rev_onto (x ∷ xs) seen = rev_onto xs (x ∷ seen)

length-rev_onto : (xs seen : List FormId) → length (rev_onto xs seen) ≡ length xs + length seen
unfolding rev_onto
length-rev_onto [] seen = omega arith
length-rev_onto (x ∷ xs) seen = omega (arith, length-rev_onto xs (x ∷ seen))

contains-rev_onto :
    (y : FormId) (xs seen : List FormId)
    → contains y (rev_onto xs seen) ≡ true
    → (contains y xs || contains y seen) ≡ true
unfolding rev_onto contains
contains-rev_onto y [] seen e = e
contains-rev_onto y (x ∷ xs) seen e = ground (arith, contains-rev_onto y xs (x ∷ seen) e)

expected_facts :
    (kids : GroupChildren) (seen e : List FormId)
    → expected_of kids seen ≡ ok e
    → (ids : List FormId) × (direct_ids kids ≡ some ids) × Fresh seen ids × (e ≡ rev_onto ids seen)
unfolding expected_of direct_ids Fresh rev_onto
expected_facts nil seen e found = ([], refl, tt, sym (ok_unique _ seen e refl found))
expected_facts (cons (group_child g) rest) seen e found = cc found
expected_facts (cons (record_child r) rest) seen e found =
    let (ids, direct, fresh, same) = expected_facts rest (r.header.form_id ∷ seen) e step.1 in
    (r.header.form_id ∷ ids, rw (direct) refl, (step.0, fresh), same)
  where
    step :
        (contains r.header.form_id seen ≡ false)
        × (expected_of rest (r.header.form_id ∷ seen) ≡ ok e)
    step = ground (arith, found)

supplied_facts :
    (expected xs seen s : List FormId)
    → supplied_of expected xs seen ≡ ok s
    → Fresh seen xs × All (λ x. contains x expected ≡ true) xs × (s ≡ rev_onto xs seen)
unfolding supplied_of Fresh rev_onto
supplied_facts expected [] seen s found = (tt, tt, sym (ok_unique _ seen s refl found))
supplied_facts expected (x ∷ xs) seen s found =
    let passed = step in
    let later = supplied_facts expected xs (x ∷ seen) s passed.2 in
    ((passed.0, later.0), (passed.1, later.1), later.2)
  where
    step :
        (contains x seen ≡ false)
        × (contains x expected ≡ true)
        × (supplied_of expected xs (x ∷ seen) ≡ ok s)
    step = ground (arith, found)

contains_cons :
    (y x : FormId) (seen : List FormId)
    → contains y (x ∷ seen) ≡ false
    → ((y == x) ≡ false) × (contains y seen ≡ false)
unfolding contains
contains_cons y x seen e = ground (arith, e)

Fresh-apart : (xs seen : List FormId) → Fresh seen xs → All (λ y. contains y seen ≡ false) xs
unfolding Fresh
Fresh-apart [] seen fresh = tt
Fresh-apart (x ∷ xs) seen (new, fresh) = (new, weaken xs (Fresh-apart xs (x ∷ seen) fresh))
  where
    weaken :
        (ys : List FormId)
        → All (λ y. contains y (x ∷ seen) ≡ false) ys
        → All (λ y. contains y seen ≡ false) ys
    weaken [] h = tt
    weaken (y ∷ ys) h = ((contains_cons y x seen h.0).1, weaken ys h.1)

-- The list without the first occurrence of an id.
without : FormId → List FormId → List FormId
without x [] = []
without x (y ∷ ys) = let later = without x ys in if x == y then ys else y ∷ later

without-Perm :
    (x : FormId) (ys : List FormId)
    → contains x ys ≡ true
    → Permᴰ ys (x ∷ without x ys) × (length ys ≡ suc (length (without x ys)))
unfolding without contains
without-Perm x [] e = cc e
without-Perm x (y ∷ ys) e = elim (Bool-cases (x == y)) [
  | inl same ↦ rw (same) (Permᴰ.cons (sym ((==_iff x y).0 same)) (Permᴰ.refl ys), refl)
  | inr other ↦ rw (other) (
      let (perm, long) = without-Perm x ys (elsewhere other) in
      (Permᴰ.trans (Permᴰ.cons refl perm) (Permᴰ.swap refl refl), ap suc long))
]
  where
    elsewhere : (x == y) ≡ false → contains x ys ≡ true
    elsewhere other = ground (arith, e, other)

contains-without :
    (x z : FormId) (ys : List FormId)
    → contains z ys ≡ true
    → (z == x) ≡ false
    → contains z (without x ys) ≡ true
unfolding without contains
contains-without x z [] e other = e
contains-without x z (y ∷ ys) e other = ground (arith, e, other, contains-without x z ys)

-- Ids that are all in a list of the same length, none twice, are that list in some order.
Fresh-Perm :
    (xs ys seen : List FormId)
    → Fresh seen xs
    → All (λ x. contains x ys ≡ true) xs
    → length xs ≡ length ys
    → Permᴰ xs ys
unfolding Fresh
Fresh-Perm [] [] seen fresh inside long = Permᴰ.nil
Fresh-Perm [] (y ∷ ys) seen fresh inside long = absurd (omega arith)
Fresh-Perm (x ∷ xs) ys seen (new, fresh) (here, inside) long =
    let (perm, shorter) = without-Perm x ys here in
    Permᴰ.trans
      (Permᴰ.cons refl (
        Fresh-Perm xs (without x ys) (x ∷ seen) fresh
          (still xs inside (Fresh-apart xs (x ∷ seen) fresh)) (omega (arith, long, shorter))))
      (Permᴰ.symm perm)
  where
    still :
        (zs : List FormId)
        → All (λ z. contains z ys ≡ true) zs
        → All (λ z. contains z (x ∷ seen) ≡ false) zs
        → All (λ z. contains z (without x ys) ≡ true) zs
    still [] h k = tt
    still (z ∷ zs) h k =
        (contains-without x z ys h.0 (contains_cons z x seen k.0).0, still zs h.1 k.1)

there : (o : Option (ℕ × ℕ)) (range : ℕ × ℕ) (e : CoreError) → ok_or o e ≡ ok range → o ≡ some range
there none range e found = cc found
there (some r) range e found = ap some (ok_unique _ r range refl found)

known :
    (xs ids expected : List FormId)
    → expected ≡ rev_onto ids []
    → All (λ x. contains x expected ≡ true) xs
    → All (λ x. contains x ids ≡ true) xs
unfolding contains
known [] ids expected same inside = tt
known (x ∷ xs) ids expected same (here, inside) = (
  ground (arith, contains-rev_onto x ids [] (ap (contains x) (sym same) ∙ here)),
  known xs ids expected same inside,
)

decided :
    (b : Bool) (e : CoreError) (p p' : PluginPatcher)
    → (if not b then err e else ok p) ≡ ok p'
    → (b ≡ true) × (p' ≡ p)
decided true e p p' found = (refl, sym (ok_unique _ p p' refl found))
decided false e p p' found = cc found

-- The last test of the method.
registered :
    (range : ℕ × ℕ) (expected supplied form_ids : List FormId) (p p' : PluginPatcher)
    → (if not (length supplied == length expected)
        then err (
            invalid_group_record_order (
              format "order contains {} of {} direct records"
                (length supplied ∷ length expected ∷ [])))
        else ok (record p { group_orders = insert range form_ids p.group_orders }))
      ≡ ok p'
    → (length supplied ≡ length expected)
      × (p' ≡ record p { group_orders = insert range form_ids p.group_orders })
registered range expected supplied form_ids p p' e =
    let (same, whole) = decided (length supplied == length expected) _ _ p' e in
    ((==_iff (length supplied) (length expected)).0 same, whole)

-- An order is accepted only for a group with a range, whose children are all records with different
-- ids, and only if it names each of these ids once: it is a permutation of them. What is accepted is
-- registered under the range of the group, in place of an order that stood there, and nothing else
-- is changed.
pub reorder_group_records-Perm :
    (g : Group) (form_ids : List FormId) (p p' : PluginPatcher)
    → reorder_group_records g form_ids p ≡ ok p'
    → (range : ℕ × ℕ) × (ids : List FormId) × (source_range_of g ≡ some range)
      × (direct_ids (children g) ≡ some ids)
      × Fresh [] ids
      × Permᴰ form_ids ids
      × (p' ≡ record p { group_orders = insert range form_ids p.group_orders })
unfolding reorder_group_records
reorder_group_records-Perm g form_ids p p' accepted =
    let (range, at, after) = bind_ok (ok_or (source_range_of g) _) _ p' accepted in
    let (expected, e, after') = bind_ok (expected_of (children g) []) _ p' after in
    let (supplied, s, after'') = bind_ok (supplied_of expected form_ids []) _ p' after' in
    let (ids, direct, fresh, same) = expected_facts (children g) [] expected e in
    let (once, inside, same') = supplied_facts expected form_ids [] supplied s in
    let (long, whole) = registered range expected supplied form_ids p p' after'' in
    (
      range,
      ids,
      there (source_range_of g) range _ at,
      direct,
      fresh,
      Fresh-Perm form_ids ids [] once (known form_ids ids expected same inside) (
          omega (
            arith,
            long,
            ap length same,
            ap length same',
            length-rev_onto ids [],
            length-rev_onto form_ids [],
          )),
      whole,
    )
