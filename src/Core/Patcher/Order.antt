-- ===== src/Core/Patcher/Order.antt =====
-- patcher.rs: `reorder_group_records`. A hash set is the list of what was inserted.
use bethkit.Prelude.{
  ℕ, List, [], ◌∷◌, Option, none, some, Bool, true, false, not, length, if◌then◌else◌, ◌==◌,
}
use bethkit.Prelude.Result.{Result, ok, err, ◌>>=◌}
use bethkit.Prelude.Dict.{insert}
use bethkit.Core.Types.{FormId}
use bethkit.Core.Error.{CoreError, invalid_group_record_order, unexpected_eof, text, format}
use bethkit.Core.Group.Data.{
  Group, record_child, group_child, GroupChildren, nil, cons, children, source_range_of,
}
use bethkit.Core.Patcher.Data.{PluginPatcher, range_key}

-- `contains` of a set.
unfoldable pub contains : ℕ → List ℕ → Bool
contains x [] = false
contains x (y ∷ ys) = let later = contains x ys in if x == y then true else later

-- The loop over the children: the set of their ids.
unfoldable pub expected_of : GroupChildren → List FormId → Result CoreError (List FormId)
expected_of nil expected = ok expected
expected_of (cons (group_child g) rest) expected =
    err (invalid_group_record_order (text "group contains nested groups"))
expected_of (cons (record_child r) rest) expected =
    let more = expected_of rest (r.header.form_id ∷ expected) in
    if contains r.header.form_id expected
    then err (
        invalid_group_record_order
          (format "group contains duplicate FormID {}" (r.header.form_id ∷ [])))
    else more

-- The loop over the ids that were given: their set.
unfoldable pub supplied_of :
    List FormId → List FormId → List FormId → Result CoreError (List FormId)
supplied_of expected [] supplied = ok supplied
supplied_of expected (form_id ∷ form_ids) supplied =
    let more = supplied_of expected form_ids (form_id ∷ supplied) in
    if contains form_id supplied
    then err
        (invalid_group_record_order (format "order contains duplicate FormID {}" (form_id ∷ [])))
    else if not (contains form_id expected)
    then err (invalid_group_record_order (format "order contains unknown FormID {}" (form_id ∷ [])))
    else more

-- `ok_or`
abbrev pub ok_or : {A : Type 0} → Option A → CoreError → Result CoreError A
ok_or none e = err e
ok_or (some a) e = ok a

unfoldable pub reorder_group_records :
    Group → List FormId → PluginPatcher → Result CoreError PluginPatcher
unfolding expected_of supplied_of
reorder_group_records g form_ids p = do
  range ← ok_or (source_range_of g) (unexpected_eof "group source range")
  expected ← expected_of (children g) []
  supplied ← supplied_of expected form_ids []
  if not (length supplied == length expected)
      then err (
          invalid_group_record_order (
            format "order contains {} of {} direct records"
              (length supplied ∷ length expected ∷ [])))
      else ok (record p { group_orders = insert range form_ids p.group_orders })
