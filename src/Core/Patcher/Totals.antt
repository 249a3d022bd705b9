-- ===== src/Core/Patcher/Totals.antt =====
-- patcher_header.rs: the loop of `updated_payload` that counts groups and records and finds the next
-- object id. The stack is a list with the last element of the vector first.
use bethkit.Prelude.{ℕ, zero, suc, ◌+◌, ◌^◌, List, [], ◌∷◌, max, ltb, ◌==◌, if◌then◌else◌}
use bethkit.Prelude.Result.{Result, ok, err, ◌>>=◌}
use bethkit.Prelude.Fault.{Fault, error, out_of_fuel}
use bethkit.Core.Types.{file_index, object_id}
use bethkit.Core.Error.{CoreError, invalid_encoding, text}
use bethkit.Core.Record.Data.{Record}
use bethkit.Core.Group.Data.{
  Group, group, GroupChild, record_child, group_child, GroupChildren, nil, cons, children,
}

pub record Totals : Type 0 where
  pub record_count : ℕ
  pub next_id : ℕ

abbrev pub Counting : Type 0
Counting = Result (Fault CoreError) Totals

-- `record_count.checked_add(1)`
unfoldable pub count_one : Totals → Counting
count_one t =
    if ltb (t.record_count + 1) (2 ^ 32)
    then ok (record t { record_count = t.record_count + 1 })
    else err (error (invalid_encoding (text "plugin record count exceeds u32")))

-- The next object id is above every id of the plugin's own.
abbrev pub raise : ℕ → Record → ℕ → ℕ
raise own_index r next_id =
    if file_index r.header.form_id == own_index
    then max next_id (object_id r.header.form_id + 1)
    else next_id

-- The loop over the direct records of a group.
unfoldable pub count_records : ℕ → GroupChildren → Totals → Counting
unfolding count_one
count_records own_index nil t = ok t
count_records own_index (cons (group_child g) rest) t = count_records own_index rest t
count_records own_index (cons (record_child r) rest) t = do
  counted ← count_one t
  count_records own_index rest (record counted { next_id = raise own_index r counted.next_id })

-- `groups.extend(group.subgroups())`
unfoldable pub push_subgroups : GroupChildren → List Group → List Group
push_subgroups nil stack = stack
push_subgroups (cons (record_child r) rest) stack = push_subgroups rest stack
push_subgroups (cons (group_child g) rest) stack = push_subgroups rest (g ∷ stack)

unfoldable pub push_groups : List Group → List Group → List Group
push_groups [] stack = stack
push_groups (g ∷ gs) stack = push_groups gs (g ∷ stack)

-- The `while` loop: one round for each group of the plugin, and one for the test at the end.
unfoldable pub count_loop : ℕ → ℕ → List Group → Totals → Counting
unfolding count_records push_subgroups
count_loop zero own_index stack t = err out_of_fuel
count_loop (suc fuel) own_index [] t = ok t
count_loop (suc fuel) own_index (g ∷ stack) t = do
  counted ← count_one t
  after ← count_records own_index (children g) counted
  count_loop fuel own_index (push_subgroups (children g) stack) after

-- How many groups there are, nested ones included.
unfoldable mutual
  pub group_total : GroupChildren → ℕ
  group_total nil = 0
  group_total (cons child rest) = total_of_child child + group_total rest

  pub total_of_child : GroupChild → ℕ
  total_of_child (record_child r) = 0
  total_of_child (group_child g) = total_of_group g

  pub total_of_group : Group → ℕ
  total_of_group (group header source_range kids) = 1 + group_total kids

unfoldable pub groups_total : List Group → ℕ
unfolding group_total
groups_total [] = 0
groups_total (g ∷ gs) = total_of_group g + groups_total gs

unfoldable pub count_all : ℕ → List Group → ℕ → Counting
unfolding count_loop groups_total push_groups
count_all own_index groups next_id =
    count_loop (1 + groups_total groups) own_index (push_groups groups [])
      (record { record_count = 0; next_id = next_id })
