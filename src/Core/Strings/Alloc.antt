-- ===== src/Core/Strings/Alloc.antt =====
-- The laws of a string table in memory: lookups after an insertion or removal, and the allocation
-- of a fresh identifier.
use bethkit.Prelude.{ℕ, ◌+◌, ◌≤◌, ◌<◌, ◌≡◌, ◌≢◌, ◌⊎◌, inl, inr, sym, subst, arith}
use bethkit.Prelude.{List, [], ◌∷◌, none, some, max, min}
use bethkit.Prelude.{◌==◌, if◌then◌else◌, All}
use bethkit.Prelude.Action.{done, fail, Outcome-cases}
use bethkit.Prelude.SortedMap.{
  SortedMap, contains_key, IsSorted, Above, lookup-insert, lookup-remove, All-insert, All-remove,
  All-weaken,
}
use bethkit.Prelude.SortedMap.{
  insert-IsSorted, remove-IsSorted, contains_key-lookup, lookup-Above, Above-trans,
}
use bethkit.Prelude.SortedMap
use bethkit.Core.Error.{CoreError}
use bethkit.Core.Strings.Table.{EntryBytes, owned, StringTable, u32_max}
use bethkit.Core.Strings.Table.{get, insert, remove, lowest_unused, try_insert_new, bump}

-- The table's invariant: the keys ascend and are `u32`s, and `next_id` is above each of them, or at
-- the limit of `u32`.
pub record IsTable (t : StringTable) : Type 0 where
  pub sorted : IsSorted t.entries
  pub keys : All (λ e. (e.0 ≤ u32_max) × (min (e.0 + 1) u32_max ≤ t.next_id)) t.entries
  pub next_small : t.next_id ≤ u32_max

pub get-insert :
    (t : StringTable) (id j : ℕ) (payload : List ℕ)
    → get (insert id payload t) j ≡ (if id == j then some payload else get t j)
unfolding get insert
get-insert t id j payload = ground (arith, lookup-insert id j (owned payload) t.entries)

-- What the search returns is free, and everything it passed over is taken.
lowest_unused_free :
    (id : ℕ) (m : SortedMap EntryBytes) (r : ℕ)
    → id ≤ u32_max
    → lowest_unused id m ≡ some r
    → IsSorted m
    → (id ≤ r) × (r ≤ u32_max) × (SortedMap.lookup r m ≡ none)
unfolding lowest_unused SortedMap.lookup
lowest_unused_free id [] r small h s = ground arith
lowest_unused_free id ((existing, b) ∷ rest) r small h s = ground (
  arith,
  lowest_unused_free id rest r small,
  lowest_unused_free (id + 1) rest r,
  s.1,
  lookup-Above r rest,
  Above-trans r existing rest,
  s.0,
)

lowest_unused_taken :
    (id : ℕ) (m : SortedMap EntryBytes) (r k : ℕ)
    → id ≤ u32_max
    → lowest_unused id m ≡ some r
    → id ≤ k
    → k < r
    → SortedMap.lookup k m ≢ none
unfolding lowest_unused SortedMap.lookup
lowest_unused_taken id [] r k small h lo hi = ground arith
lowest_unused_taken id ((existing, b) ∷ rest) r k small h lo hi =
    ground (arith, lowest_unused_taken id rest r k, lowest_unused_taken (id + 1) rest r k)

lowest_unused_exhausted :
    (id : ℕ) (m : SortedMap EntryBytes) (k : ℕ)
    → id ≤ u32_max
    → lowest_unused id m ≡ none
    → id ≤ k
    → k ≤ u32_max
    → SortedMap.lookup k m ≢ none
unfolding lowest_unused SortedMap.lookup
lowest_unused_exhausted id [] k small h lo hi = λ e. cc
lowest_unused_exhausted id ((existing, b) ∷ rest) k small h lo hi =
    ground (arith, lowest_unused_exhausted id rest k, lowest_unused_exhausted (id + 1) rest k)

abbrev KeyFits : ℕ → ℕ × EntryBytes → Type 0
KeyFits next e = (e.0 ≤ u32_max) × (min (e.0 + 1) u32_max ≤ next)

KeyFits-weaken : (n m : ℕ) → n ≤ m → (e : ℕ × EntryBytes) → KeyFits n e → KeyFits m e
KeyFits-weaken n m h e (small, below) = (small, omega arith)

pub insert-IsTable :
    (t : StringTable) (id : ℕ) (payload : List ℕ)
    → id ≤ u32_max
    → IsTable t
    → IsTable (insert id payload t)
unfolding insert
insert-IsTable t id payload small v = record {
  sorted = insert-IsSorted id (owned payload) t.entries v.sorted;
  keys = All-insert (KeyFits (bump id t.next_id)) id (owned payload) t.entries (ground arith) (
      All-weaken (KeyFits t.next_id) (KeyFits-weaken t.next_id (bump id t.next_id) (ground arith))
        t.entries v.keys);
  next_small = ground (arith, v.next_small);
}

pub remove-IsTable : (t : StringTable) (id : ℕ) → IsTable t → IsTable (remove id t).1
unfolding remove
remove-IsTable t id v = record {
  sorted = remove-IsSorted id t.entries v.sorted;
  keys = All-remove (KeyFits t.next_id) id t.entries v.keys;
  next_small = v.next_small;
}

try_insert_new_place :
    (t t' : StringTable) (payload : List ℕ) (id : ℕ)
    → IsTable t
    → try_insert_new payload t ≡ done id t'
    → (1 ≤ id)
      × (id ≤ u32_max)
      × (SortedMap.lookup id t.entries ≡ none)
      × (t' ≡ insert id payload t)
unfolding try_insert_new
try_insert_new_place t t' payload id v h = ground (
  arith,
  lowest_unused_free 1 t.entries id,
  contains_key-lookup (max t.next_id 1) t.entries,
  v.next_small,
  v.sorted,
)

try_insert_new_refused :
    (t t' : StringTable) (payload : List ℕ) (e : CoreError)
    → IsTable t
    → try_insert_new payload t ≡ fail e t'
    → (t' ≡ t) × ((k : ℕ) → 1 ≤ k → k ≤ u32_max → get t k ≢ none)
unfolding try_insert_new get
try_insert_new_refused t t' payload e v h =
    (ground arith, λ k lo hi. ground (arith, lowest_unused_exhausted 1 t.entries k))

-- On a valid table an allocation either returns a nonzero `u32` that was free, stores the payload
-- there, changes no other entry and leaves the table valid; or every nonzero `u32` is taken, and it
-- fails and leaves the table as it was.
pub try_insert_new_cases :
    (t : StringTable) (payload : List ℕ)
    → IsTable t
    → ((id : ℕ) × (u : StringTable) × (try_insert_new payload t ≡ done id u)
        × (1 ≤ id)
        × (id ≤ u32_max)
        × (get t id ≡ none)
        × IsTable u
        × ((j : ℕ) → get u j ≡ (if id == j then some payload else get t j)))
      ⊎ ((e : CoreError) × (try_insert_new payload t ≡ fail e t)
          × ((k : ℕ) → 1 ≤ k → k ≤ u32_max → get t k ≢ none))
unfolding get
try_insert_new_cases t payload v = elim (Outcome-cases (try_insert_new payload t)) [
  | inl (id, u, made) ↦
      let (low, high, free, stored) = try_insert_new_place t u payload id v made in
      inl (
        id,
        u,
        made,
        low,
        high,
        rw free,
        subst IsTable (sym stored) (insert-IsTable t id payload high v),
        λ j. rw stored (get-insert t id j payload),
      )
  | inr (e, u, refused) ↦
      let (same, taken) = try_insert_new_refused t u payload e v refused in
      inr (e, subst (λ w. try_insert_new payload t ≡ fail e w) same refused, taken)
]
