-- ===== src/Core/Patcher/Counts.antt =====
-- patcher_header.rs: the loop of `updated_payload` on its stack against the tree of groups.
use bethkit.Prelude.{
  ℕ, zero, suc, ◌+◌, ◌^◌, ◌<◌, ◌≡◌, refl, sym, ap, ap₂, ◌∙◌, arith, ltb, if◌then◌else◌,
}
use bethkit.Prelude.{List, [], ◌∷◌, ◌++◌, length, length-append, false, Bool-cases, inl, inr}
use bethkit.Prelude.Result.{ok, err, ◌>>=◌}
use bethkit.Prelude.Fault.{error}
use bethkit.Core.Error.{invalid_encoding, text}
use bethkit.Core.Record.Data.{Record}
use bethkit.Core.Group.Data.{
  Group, group, record_child, group_child, GroupChildren, nil, cons, children,
}
use bethkit.Core.Group.Walk
use bethkit.Core.Group.Walk.{flatten_group}
use bethkit.Core.Plugin.Data.{plugin_records}
use bethkit.Core.Patcher.Totals
use bethkit.Core.Patcher.Totals.{
  Totals, Counting, count_one, raise, count_records, push_subgroups, push_groups, count_loop,
  groups_total, count_all,
}

module _ (own_index : ℕ) where
  -- The next id behind the plugin's own records of a list.
  unfoldable pub raised : List Record → ℕ → ℕ
  raised [] next_id = next_id
  raised (r ∷ rs) next_id = raise own_index r (raised rs next_id)

  raise-raise :
      (r s : Record) (a : ℕ)
      → raise own_index r (raise own_index s a) ≡ raise own_index s (raise own_index r a)
  raise-raise r s a = ground arith

  raised-raise :
      (r : Record) (rs : List Record) (a : ℕ)
      → raised rs (raise own_index r a) ≡ raise own_index r (raised rs a)
  unfolding raised
  raised-raise r [] a = refl
  raised-raise r (s ∷ rs) a =
      ap (raise own_index s) (raised-raise r rs a) ∙ raise-raise s r (raised rs a)

  raised-append : (xs ys : List Record) (a : ℕ) → raised (xs ++ ys) a ≡ raised xs (raised ys a)
  unfolding raised
  raised-append [] ys a = refl
  raised-append (x ∷ xs) ys a = ap (raise own_index x) (raised-append xs ys a)

  raised_comm : (xs ys : List Record) (a : ℕ) → raised xs (raised ys a) ≡ raised ys (raised xs a)
  unfolding raised
  raised_comm [] ys a = refl
  raised_comm (x ∷ xs) ys a =
      ap (raise own_index x) (raised_comm xs ys a) ∙ sym (raised-raise x ys (raised xs a))

-- `n` more are counted, if a `u32` holds the sum, and the next id is changed.
abbrev pub counted : ℕ → (ℕ → ℕ) → Totals → Counting
counted n change t =
    if ltb (t.record_count + n) (2 ^ 32)
    then ok (record { record_count = t.record_count + n; next_id = change t.next_id })
    else err (error (invalid_encoding (text "plugin record count exceeds u32")))

counted-bind :
    (n m : ℕ) (f h : ℕ → ℕ) (k : Totals → Counting) (t : Totals)
    → ((t' : Totals) → t'.record_count < 2 ^ 32 → k t' ≡ counted m h t')
    → (counted n f t >>= k) ≡ counted (n + m) (λ a. h (f a)) t
counted-bind n m f h k t next = elim (Bool-cases (ltb (t.record_count + n) (2 ^ 32))) [
  | inl small ↦ rw (small) (next _ (ground (arith, small)) ∙ joined)
  | inr large ↦ rw (large, over large) refl
]
  where
    over :
        ltb (t.record_count + n) (2 ^ 32) ≡ false → ltb (t.record_count + (n + m)) (2 ^ 32) ≡ false
    over large = ground (arith, large)

    sum : t.record_count + n + m ≡ t.record_count + (n + m)
    sum = omega arith

    joined :
        counted m h (record { record_count = t.record_count + n; next_id = f t.next_id })
        ≡ counted (n + m) (λ a. h (f a)) t
    joined =
        ap
          (λ s.
            if ltb s (2 ^ 32)
            then ok (record { record_count = s; next_id = h (f t.next_id) })
            else err (error (invalid_encoding (text "plugin record count exceeds u32"))))
          sum

counted_alike :
    {n m : ℕ} (f h : ℕ → ℕ) (t : Totals)
    → n ≡ m
    → f t.next_id ≡ h t.next_id
    → counted n f t ≡ counted m h t
counted_alike f h t n_m f_h =
    ap₂
      (λ n a.
        if ltb (t.record_count + n) (2 ^ 32)
        then ok (record { record_count = t.record_count + n; next_id = a })
        else err (error (invalid_encoding (text "plugin record count exceeds u32"))))
      n_m f_h

counted_none : (t : Totals) → t.record_count < 2 ^ 32 → ok t ≡ counted 0 (λ a. a) t
counted_none t small = ground (arith, small)

module _ (own_index : ℕ) where
  -- The direct records of a group.
  unfoldable direct_records : GroupChildren → List Record
  direct_records nil = []
  direct_records (cons (record_child r) rest) = r ∷ direct_records rest
  direct_records (cons (group_child g) rest) = direct_records rest

  count_records-counted :
      (kids : GroupChildren) (t : Totals)
      → t.record_count < 2 ^ 32
      → count_records own_index kids t
        ≡ counted (length (direct_records kids)) (raised own_index (direct_records kids)) t
  unfolding count_records direct_records raised count_one
  count_records-counted nil t small = counted_none t small
  count_records-counted (cons (group_child g) rest) t small = count_records-counted rest t small
  count_records-counted (cons (record_child r) rest) t small =
      counted-bind 1 (length (direct_records rest)) (λ a. a)
        (λ a. raised own_index (direct_records rest) (raise own_index r a)) _ t
        (λ t' small'.
          count_records-counted rest (record t' { next_id = raise own_index r t'.next_id }) small')
      ∙ counted_alike (λ a. raised own_index (direct_records rest) (raise own_index r a))
          (raised own_index (direct_records (cons (record_child r) rest))) t (omega arith)
          (raised-raise own_index r (direct_records rest) t.next_id)

  push_subgroups-total :
      (kids : GroupChildren) (stack : List Group)
      → groups_total (push_subgroups kids stack) ≡ Totals.group_total kids + groups_total stack
  unfolding push_subgroups groups_total
  push_subgroups-total nil stack = omega arith
  push_subgroups-total (cons (record_child r) rest) stack =
      omega (arith, push_subgroups-total rest stack)
  push_subgroups-total (cons (group_child g) rest) stack =
      omega (arith, push_subgroups-total rest (g ∷ stack))

  push_subgroups-length :
      (kids : GroupChildren) (stack : List Group)
      → length (direct_records kids) + length (plugin_records (push_subgroups kids stack))
        ≡ length (Walk.flatten kids) + length (plugin_records stack)
  unfolding push_subgroups plugin_records flatten_group direct_records
  push_subgroups-length nil stack = refl
  push_subgroups-length (cons (record_child r) rest) stack =
      omega (arith, push_subgroups-length rest stack)
  push_subgroups-length (cons (group_child g) rest) stack = omega (
    arith,
    push_subgroups-length rest (g ∷ stack),
    length-append (flatten_group g) (plugin_records stack),
    length-append (flatten_group g) (Walk.flatten rest),
  )

  push_subgroups-raised :
      (kids : GroupChildren) (stack : List Group) (a : ℕ)
      → raised own_index
          (plugin_records (push_subgroups kids stack))
          (raised own_index (direct_records kids) a)
        ≡ raised own_index (Walk.flatten kids) (raised own_index (plugin_records stack) a)
  unfolding push_subgroups plugin_records flatten_group direct_records raised
  push_subgroups-raised nil stack a = refl
  push_subgroups-raised (cons (record_child r) rest) stack a =
      raised-raise own_index r (plugin_records (push_subgroups rest stack))
        (raised own_index (direct_records rest) a)
      ∙ ap (raise own_index r) (push_subgroups-raised rest stack a)
  push_subgroups-raised (cons (group_child g) rest) stack a =
      push_subgroups-raised rest (g ∷ stack) a
      ∙ ap (raised own_index (Walk.flatten rest))
          (raised-append own_index (flatten_group g) (plugin_records stack) a)
      ∙ raised_comm own_index (Walk.flatten rest) (flatten_group g)
          (raised own_index (plugin_records stack) a)
      ∙ sym (
          raised-append own_index (flatten_group g) (Walk.flatten rest)
            (raised own_index (plugin_records stack) a))

  count_loop-counted :
      (fuel : ℕ) (stack : List Group) (t : Totals)
      → groups_total stack < fuel
      → t.record_count < 2 ^ 32
      → count_loop fuel own_index stack t
        ≡ counted
            (groups_total stack + length (plugin_records stack))
            (raised own_index (plugin_records stack))
            t
  unfolding count_loop groups_total plugin_records raised count_one flatten_group children
  count_loop-counted zero stack t enough small = absurd (omega arith)
  count_loop-counted (suc fuel) [] t enough small = counted_none t small
  count_loop-counted (suc fuel) (group header range kids ∷ stack) t enough small =
      counted-bind 1
        (length (direct_records kids)
          + (groups_total (push_subgroups kids stack)
              + length (plugin_records (push_subgroups kids stack))))
        (λ a. a)
        (λ a.
          raised own_index (plugin_records (push_subgroups kids stack))
            (raised own_index (direct_records kids) a))
        _ t
        (λ t' small'.
          ap (λ o. o >>= (λ after. count_loop fuel own_index (push_subgroups kids stack) after))
            (count_records-counted kids t' small')
          ∙ counted-bind (length (direct_records kids))
              (groups_total (push_subgroups kids stack)
                + length (plugin_records (push_subgroups kids stack)))
              (raised own_index (direct_records kids))
              (raised own_index (plugin_records (push_subgroups kids stack))) _ t'
              (λ t'' small''.
                count_loop-counted fuel (push_subgroups kids stack) t''
                  (omega (arith, enough, push_subgroups-total kids stack)) small''))
      ∙ counted_alike
          (λ a.
            raised own_index (plugin_records (push_subgroups kids stack))
              (raised own_index (direct_records kids) a))
          (raised own_index (plugin_records (group header range kids ∷ stack))) t
          (omega (
            arith,
            push_subgroups-total kids stack,
            push_subgroups-length kids stack,
            length-append (Walk.flatten kids) (plugin_records stack),
          ))
          (push_subgroups-raised kids stack t.next_id
            ∙ sym (raised-append own_index (Walk.flatten kids) (plugin_records stack) t.next_id))

  push_groups-total :
      (gs stack : List Group)
      → groups_total (push_groups gs stack) ≡ groups_total gs + groups_total stack
  unfolding push_groups groups_total
  push_groups-total [] stack = omega arith
  push_groups-total (g ∷ gs) stack = omega (arith, push_groups-total gs (g ∷ stack))

  push_groups-length :
      (gs stack : List Group)
      → length (plugin_records (push_groups gs stack))
        ≡ length (plugin_records gs) + length (plugin_records stack)
  unfolding push_groups plugin_records
  push_groups-length [] stack = omega arith
  push_groups-length (g ∷ gs) stack = omega (
    arith,
    push_groups-length gs (g ∷ stack),
    length-append (flatten_group g) (plugin_records stack),
    length-append (flatten_group g) (plugin_records gs),
  )

  push_groups-raised :
      (gs stack : List Group) (a : ℕ)
      → raised own_index (plugin_records (push_groups gs stack)) a
        ≡ raised own_index (plugin_records gs) (raised own_index (plugin_records stack) a)
  unfolding push_groups plugin_records raised
  push_groups-raised [] stack a = refl
  push_groups-raised (g ∷ gs) stack a =
      push_groups-raised gs (g ∷ stack) a
      ∙ ap (raised own_index (plugin_records gs))
          (raised-append own_index (flatten_group g) (plugin_records stack) a)
      ∙ raised_comm own_index (plugin_records gs) (flatten_group g)
          (raised own_index (plugin_records stack) a)
      ∙ sym (
          raised-append own_index (flatten_group g) (plugin_records gs)
            (raised own_index (plugin_records stack) a))

  -- The loop over the stack of groups ends. It counts every group and every record of the tree once,
  -- nested ones included, and fails exactly where that number is no u32; and the next object id is
  -- what the plugin's own records raise it to in the order of the file, though the stack takes the
  -- groups in another.
  pub count_all-counted :
      (groups : List Group) (next_id : ℕ)
      → count_all own_index groups next_id
        ≡ counted
            (groups_total groups + length (plugin_records groups))
            (raised own_index (plugin_records groups))
            (record { record_count = 0; next_id = next_id })
  unfolding count_all groups_total plugin_records raised
  count_all-counted groups next_id =
      count_loop-counted (1 + groups_total groups) (push_groups groups [])
        (record { record_count = 0; next_id = next_id })
        (omega (arith, push_groups-total groups [], none_total)) (omega arith)
      ∙ counted_alike (raised own_index (plugin_records (push_groups groups [])))
          (raised own_index (plugin_records groups))
          (record { record_count = 0; next_id = next_id })
          (omega (
            arith,
            push_groups-total groups [],
            none_total,
            push_groups-length groups [],
            none_length,
          ))
          (push_groups-raised groups [] next_id ∙ none_raised)
    where
      none_total : groups_total [] ≡ 0
      none_total = refl

      none_length : length (plugin_records []) ≡ 0
      none_length = refl

      none_raised :
          raised own_index (plugin_records groups) (raised own_index (plugin_records []) next_id)
          ≡ raised own_index (plugin_records groups) next_id
      none_raised = refl
