-- ===== src/Core/Group/Tiles.antt =====
-- The shape of a parsed group: its children tile the bytes behind its header without a gap.
use bethkit.Prelude.{
  ℕ, zero, suc, ◌+◌, ◌-◌, ◌≤◌, ◌^◌, ◌<◌, ◌≡◌, refl, sym, ap, subst, ◌∙◌, inl, inr, ◌⊎◌, arith,
}
use bethkit.Prelude.{List, length, Option, none, some, Option-cases, Bool-cases, ltb}
use bethkit.Prelude.Action.{Outcome, done, fail}
use bethkit.Prelude.Fault.{Fault, error, out_of_fuel}
use bethkit.Prelude.Fine.{Fine, Fine-bind}
use bethkit.Prelude.Keys.{bytes_eq}
use bethkit.Io.Cursor.{SliceCursor, checked_add, peek_bytes}
use bethkit.Io.Cursor.Bounds.{advance}
use bethkit.Core.Signature
use bethkit.Core.Error.{CoreError}
use bethkit.Core.Record.Header.{parse_header}
use bethkit.Core.Record.Subrecords.{Parser}
use bethkit.Core.Group.Data.{
  GroupHeader, Group, group, GroupChild, record_child, group_child, GroupChildren, nil, cons,
  header_of, children,
}
use bethkit.Core.Group.Parse.{
  parse_group_header, parse_with, ranged_group, parse_child, after_loop, parse_children, parse,
}
use bethkit.Core.Group.Moves.{Moved, parse_header-Fine}
use bethkit.Core.Group.Headers.{HeaderAt, parse_group_header-HeaderAt}

-- The children stand one behind the other from `start` to `end`, and each knows its range. A record
-- takes its header and its block, a group its announced size, tiled by its own children.
unfoldable mutual
  pub Tiles : List ℕ → ℕ → ℕ → GroupChildren → Type 0
  Tiles source start end nil = start ≡ end
  Tiles source start end (cons child rest) =
      (middle : ℕ) × Spans source start middle child × Tiles source middle end rest

  pub Spans : List ℕ → ℕ → ℕ → GroupChild → Type 0
  Spans source start end (record_child r) =
      (r.source_range ≡ some (start, end)) × (start + (24 + r.header.data_size) ≡ end)
  Spans source start end (group_child g) = SpansGroup source (some (start, end)) start end g

  pub SpansGroup : List ℕ → Option (ℕ × ℕ) → ℕ → ℕ → Group → Type 0
  SpansGroup source range start end (group header source_range kids) =
      (source_range ≡ range)
      × (start + header.group_size ≡ end)
      × HeaderAt source start header
      × Tiles source (start + 24) end kids

-- What the parsers return at a cursor: where it stands then, and the shape of the value.
abbrev pub Reached : SliceCursor → ℕ → SliceCursor → Type 0
Reached c end c' =
    (c' ≡ record { bytes = c.bytes; pos = end }) × (c.pos ≤ end) × (end ≤ length c.bytes)

abbrev Kids : SliceCursor → ℕ → GroupChildren → SliceCursor → Type 0
Kids c end kids c' = Reached c end c' × Tiles c.bytes c.pos end kids

abbrev Child : SliceCursor → GroupChild → SliceCursor → Type 0
Child c child c' = Reached c c'.pos c' × (c.pos + 24 ≤ c'.pos) × Spans c.bytes c.pos c'.pos child

abbrev pub Whole : SliceCursor → Group → SliceCursor → Type 0
Whole c g c' = Reached c c'.pos c' × (c.pos + 24 ≤ c'.pos) × SpansGroup c.bytes none c.pos c'.pos g

after_loop-Kids :
    (end : ℕ) (c : SliceCursor) → c.pos ≤ length c.bytes → Fine (Kids c end) (after_loop end c)
unfolding after_loop Fine Tiles
after_loop-Kids end c valid = ground arith

-- The children of a group stand behind its 24 bytes.
abbrev Later : (ℕ → Parser GroupChildren) → SliceCursor → Type 0
Later kids c =
    (end : ℕ)
    → c.pos + 24 ≤ length c.bytes
    → Fine (Kids (advance 24 c) end) (kids end (advance 24 c))

Kids-Whole :
    (c d : SliceCursor) (header : GroupHeader) (kids : GroupChildren)
    → HeaderAt c.bytes c.pos header
    → Kids (advance 24 c) (c.pos + header.group_size) kids d
    → Whole c (group header none kids) d
unfolding Tiles
Kids-Whole c d header kids stands (reached, tiles) = (
  (ground (arith, reached.0), omega (arith, reached.1, end), omega (arith, reached.2, end)),
  omega (arith, reached.1, end),
  (refl, sym end, stands, subst (λ e. Tiles c.bytes (c.pos + 24) e kids) (sym end) tiles),
)
  where
    end : d.pos ≡ c.pos + header.group_size
    end = ap (λ e. e.pos) reached.0

parse_with-Whole :
    (kids : ℕ → Parser GroupChildren) (c : SliceCursor)
    → Later kids c
    → Fine (Whole c) (parse_with kids c)
unfolding parse_with Fine Tiles checked_add
parse_with-Whole kids c later =
    Fine-bind (λ header c'. Moved c 24 c' × HeaderAt c.bytes c.pos header) _ parse_group_header _ c
      (parse_group_header-HeaderAt c)
      (λ header c' (moved, stands). elim (Bool-cases (ltb (c.pos + header.group_size) (2 ^ 64))) [
        | inl fits ↦
            rw (fits, moved.0)
              (Fine-bind (Kids (advance 24 c) (c.pos + header.group_size)) (Whole c)
                (kids (c.pos + header.group_size)) _ (advance 24 c)
                (later (c.pos + header.group_size) moved.1)
                (λ children d done_kids. Kids-Whole c d header children stands done_kids))
        | inr over ↦ rw (over) tt
      ])

Whole-Child : (c d : SliceCursor) (g : Group) → Whole c g d → Child c (ranged_group c.pos d.pos g) d
unfolding Tiles
Whole-Child c d (group header source_range kids) (reached, room, spans) =
    (reached, room, (refl, spans.1, spans.2, spans.3))

parse_child-Child :
    (kids : ℕ → Parser GroupChildren) (sig_bytes : List ℕ) (c : SliceCursor)
    → Later kids c
    → Fine (Child c) (parse_child kids sig_bytes c)
unfolding parse_child Fine Tiles
parse_child-Child kids sig_bytes c later = elim (Bool-cases (bytes_eq sig_bytes Signature.grup)) [
  | inl same ↦ rw (same) (
      Fine-bind (Whole c) (Child c) (parse_with kids) _ c (parse_with-Whole kids c later)
        (λ g d whole. Whole-Child c d g whole))
  | inr other ↦ rw (other) (
      Fine-bind (λ r d. Moved c (24 + r.header.data_size) d) (Child c) parse_header _ c
        (parse_header-Fine c)
        (λ r d moved.
          rw (moved.0) ((refl, omega arith, omega (arith, moved.1)), omega arith, (refl, refl))))
]

-- The rest of the loop, from where a child ends.
Child-Kids :
    (c d : SliceCursor) (end : ℕ) (child : GroupChild) (rest : GroupChildren) (e : SliceCursor)
    → Child c child d
    → Kids d end rest e
    → Kids c end (cons child rest) e
unfolding Tiles
Child-Kids c d end child rest e one others = (
  (
    others.0.0 ∙ ap (λ b. record { bytes = b; pos = end }) (ap (λ x. x.bytes) one.0.0),
    omega (arith, one.0.1, others.0.1),
    omega (arith, others.0.2, ap (λ x. length x.bytes) one.0.0),
  ),
  (d.pos, one.2, subst (λ b. Tiles b d.pos end rest) (ap (λ x. x.bytes) one.0.0) others.1),
)

parse_children-Kids :
    (fuel end : ℕ) (c : SliceCursor)
    → c.pos ≤ length c.bytes
    → length c.bytes - c.pos < fuel
    → Fine (Kids c end) (parse_children fuel end c)
unfolding parse_children Fine
parse_children-Kids zero end c valid enough = omega arith
parse_children-Kids (suc fuel) end c valid enough = elim (Bool-cases (ltb c.pos end)) [
  | inr past ↦ rw (past) (after_loop-Kids end c valid)
  | inl before ↦ rw (before) (elim (Option-cases (peek_bytes c 4)) [
    | inl nothing ↦ rw (nothing) (after_loop-Kids end c valid)
    | inr (sig_bytes, shown) ↦ rw (shown) (
        Fine-bind (Child c) (Kids c end) (parse_child (parse_children fuel) sig_bytes) _ c
          (parse_child-Child (parse_children fuel) sig_bytes c
            (λ e fits. parse_children-Kids fuel e (advance 24 c) fits (omega (arith, enough))))
          (λ child d one.
            Fine-bind (Kids d end) (Kids c end) (parse_children fuel end) _ d
              (parse_children-Kids fuel end d
                (omega (arith, one.0.2, ap (λ x. length x.bytes) one.0.0))
                (omega (arith, one.1, ap (λ x. length x.bytes) one.0.0)))
              (λ rest e others. Child-Kids c d end child rest e one others)))
  ])
]

pub parse-Whole : (c : SliceCursor) → c.pos ≤ length c.bytes → Fine (Whole c) (parse c)
unfolding parse
parse-Whole c valid =
    parse_with-Whole (parse_children (suc (length c.bytes))) c
      (λ end fits. parse_children-Kids (suc (length c.bytes)) end (advance 24 c) fits (omega arith))

verdict :
    (c : SliceCursor) (o : Outcome (Fault CoreError) SliceCursor Group)
    → Fine (Whole c) o
    → ((g : Group) × (o
          ≡ done g (record { bytes = c.bytes; pos = c.pos + (header_of g).group_size }))
        × (c.pos + (header_of g).group_size ≤ length c.bytes)
        × HeaderAt c.bytes c.pos (header_of g)
        × Tiles c.bytes (c.pos + 24) (c.pos + (header_of g).group_size) (children g))
      ⊎ ((e : CoreError) × (c' : SliceCursor) × (o ≡ fail (error e) c'))
unfolding Fine Tiles children
verdict c (fail (error e) c') fine = inr (e, c', refl)
verdict c (fail out_of_fuel c') fine = elim fine [ ]
verdict c (done (group header source_range kids) c') (reached, room, spans) = inl (
  group header source_range kids,
  ap (done (group header source_range kids))
      (reached.0 ∙ ap (λ p. record { bytes = c.bytes; pos = p }) (sym spans.1)),
  omega (arith, reached.2, spans.1),
  spans.2,
  rw (spans.1) spans.3,
)

-- Wherever in a slice it starts and whatever stands there, the parser of a group comes to an end:
-- with an error of the program's own, or with a group that ends exactly where its size says, within
-- the slice, and whose children tile the bytes behind its header, each record and each nested group
-- with the range that it came from. Every group's header has the fields that stand there.
pub parse-Tiles :
    (c : SliceCursor)
    → c.pos ≤ length c.bytes
    → ((g : Group) × (parse c
          ≡ done g (record { bytes = c.bytes; pos = c.pos + (header_of g).group_size }))
        × (c.pos + (header_of g).group_size ≤ length c.bytes)
        × HeaderAt c.bytes c.pos (header_of g)
        × Tiles c.bytes (c.pos + 24) (c.pos + (header_of g).group_size) (children g))
      ⊎ ((e : CoreError) × (c' : SliceCursor) × (parse c ≡ fail (error e) c'))
parse-Tiles c valid = verdict c (parse c) (parse-Whole c valid)
