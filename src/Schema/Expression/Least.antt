-- ===== src/Schema/Expression/Least.antt =====
-- expression.rs: the operations that an answer takes at least, and the budget of an evaluation.
use bethkit.Prelude.{
  ℕ, ◌+◌, ◌≤◌, min, ◌≡◌, refl, sym, ◌∙◌, arith, Bool, true, false, not, leb, if◌then◌else◌, List,
  [], ◌∷◌, Option, some, none, length, inl, inr,
}
use bethkit.Prelude.Int.{ℤ, int_eq}
use bethkit.Prelude.Action.{done, pure, throw, ◌>>=◌, Outcome-cases}
use bethkit.Prelude.Result.{Result, ok, err}
use bethkit.Schema.Error.{Fault, SchemaError, expression}
use bethkit.Schema.Expression.Data.{
  EvalValue, bool, int, EvalContext, IntegerLookupCase, Expression, Expressions, bool_literal,
  int_literal, payload_length, form_version, read_unsigned, read_field_path, record_signature,
  equal, not_equal, less_than, bit_set, and, or, negate, add, subtract, multiply, divide, bit_count,
  integer_lookup, select, nil, cons,
}
use bethkit.Schema.Expression.Evaluate
use bethkit.Schema.Expression.Evaluate.{
  Eval, known, some_or, spend, find_case, truth, integer, arithmetic, compare_values, costed,
  evaluate_body, evaluate,
}
use bethkit.Schema.Expression.Budget.{
  costs_all, costs_any, sizes, size, charged, IsGenuine, Within, Within-known_bool,
  Within-known_int, Within-choice, Within-pure, Within-find_case, costed_none, positive, costs,
}

-- A lookup with a case tries one at least.
unfoldable pub tried : List IntegerLookupCase → ℕ
tried [] = 0
tried (case ∷ cases) = 1

-- The nodes that every answer has evaluated: both operands, the first of a conjunction or of a
-- disjunction, and the condition and one of the branches of a selection.
unfoldable mutual
  unfolding tried

  pub least : Expression → ℕ
  least (bool_literal value) = 1
  least (int_literal value) = 1
  least payload_length = 1
  least form_version = 1
  least (read_unsigned offset width) = 1
  least (read_field_path path) = 1
  least (record_signature signature) = 1
  least (equal left right) = 1 + (least left + least right)
  least (not_equal left right) = 1 + (least left + least right)
  least (less_than left right) = 1 + (least left + least right)
  least (bit_set value bit) = 1 + least value
  least (and values) = 1 + leasts values
  least (or values) = 1 + leasts values
  least (negate value) = 1 + least value
  least (add left right) = 1 + (least left + least right)
  least (subtract left right) = 1 + (least left + least right)
  least (multiply left right) = 1 + (least left + least right)
  least (divide left right) = 1 + (least left + least right)
  least (bit_count value) = 1 + least value
  least (integer_lookup value cases default) = 1 + (least value + tried cases)
  least (select condition if_true if_false) =
      1 + (least condition + min (least if_true) (least if_false))

  pub leasts : Expressions → ℕ
  leasts nil = 0
  leasts (cons value values) = least value

-- An action whose every answer has taken `k` operations off the budget at least.
Spends : {A : Type 0} → ℕ → Eval A → Type 0
Spends {A} k m = (n : ℕ) (a : A) (left : ℕ) → m n ≡ done a left → left + k ≤ n

bind_done :
    {A B : Type 0} (m : Eval A) (f : A → Eval B) (n : ℕ) (b : B) (left : ℕ)
    → (m >>= f) n ≡ done b left
    → (a : A) × (between : ℕ) × (m n ≡ done a between) × (f a between ≡ done b left)
bind_done m f n b left h = elim (Outcome-cases (m n)) [
  | inl (a, between, first) ↦ (a, between, first, sym (rw (◌>>=◌, first) refl) ∙ h)
  | inr (e, between, failed) ↦ ground (arith, h, failed)
]

Spends-bind :
    {A B : Type 0} (k j t : ℕ) (m : Eval A) (f : A → Eval B)
    → t ≤ k + j
    → Spends k m
    → ((a : A) → Spends j (f a))
    → Spends t (m >>= f)
unfolding Spends
Spends-bind k j t m f sum first next n b left h =
    let (a, between, here, there) = bind_done m f n b left h in
    omega (arith, sum, first n a between here, next a between b left there)

charged-done :
    {A : Type 0} (k n : ℕ) (r : Result SchemaError A) (a : A) (left : ℕ)
    → charged k r n ≡ done a left
    → left + k ≤ n
charged-done k n (ok b) a left h = ground (arith, h)
charged-done k n (err e) a left h = ground (arith, h)

Within-Spends : {A : Type 0} (t : ℕ) (m : Eval A) → Within t m → Spends 0 m
unfolding Spends
Within-Spends t m (k, r, small, genuine, same) n a left h =
    omega (arith, charged-done k n r a left (sym (same n) ∙ h))

Spends-spend : Spends 1 spend
unfolding spend Spends
Spends-spend n a left h = ground (arith, h)

Spends-throw : (A : Type 0) (k : ℕ) (e : SchemaError) → Spends {A = A} k (throw e)
unfolding Spends
Spends-throw A k e n a left h = ground (arith, h)

Spends-costed : (k : ℕ) (m : Eval EvalValue) → Spends k m → Spends (1 + k) (costed m)
Spends-costed k m spends = Spends-bind 1 k (1 + k) spend _ (omega arith) Spends-spend (λ u. spends)

Spends-truth : (k : ℕ) (m : Eval EvalValue) → Spends k m → Spends k (truth m)
Spends-truth k m spends =
    Spends-bind k 0 k m _ (omega arith) spends (λ v. Within-Spends 0 _ (Within-known_bool 0 v))

Spends-integer : (k : ℕ) (m : Eval EvalValue) → Spends k m → Spends k (integer m)
Spends-integer k m spends =
    Spends-bind k 0 k m _ (omega arith) spends (λ v. Within-Spends 0 _ (Within-known_int 0 v))

Spends-arithmetic :
    (k j : ℕ) (left right : Eval EvalValue) (op : ℤ → ℤ → Option ℤ) (fault : Fault)
    → Spends k left
    → Spends j right
    → Spends (k + j) (arithmetic left right op fault)
Spends-arithmetic k j left right op fault first second =
    Spends-bind k j (k + j) (integer left) _ (omega arith) (Spends-integer k left first) (λ a.
      Spends-bind j 0 j (integer right) _ (omega arith) (Spends-integer j right second) (λ b.
        Spends-bind 0 0 0 (some_or fault (op a b)) _ (omega arith) (Spends-some_or fault (op a b))
          (λ c. Within-Spends 0 _ (Within-pure 0 (int c)))))
  where
    Spends-some_or : {A : Type 0} (fault : Fault) (o : Option A) → Spends 0 (some_or fault o)
    Spends-some_or fault none = Spends-throw _ 0 (expression fault)
    Spends-some_or fault (some a) = Within-Spends 0 _ (Within-pure 0 a)

Spends-compare :
    (k j : ℕ) (left right : Eval EvalValue) (answer : Bool → Bool)
    → Spends k left
    → Spends j right
    → Spends (k + j) (compare_values left right answer)
Spends-compare k j left right answer first second =
    Spends-bind k j (k + j) left _ (omega arith) first (λ a.
      Spends-bind j 0 j right _ (omega arith) second (λ b. Within-Spends 0 _ (Within-pure 0 _)))

Spends-choice :
    {A : Type 0} (k j : ℕ) (b : Bool) (m m' : Eval A)
    → Spends k m
    → Spends j m'
    → Spends (min k j) (if b then m else m')
unfolding Spends
Spends-choice k j true m m' first second n a left h = omega (arith, first n a left h)
Spends-choice k j false m m' first second n a left h = omega (arith, second n a left h)

Spends-find_case :
    (key default : ℤ) (cases : List IntegerLookupCase)
    → Spends (tried cases) (find_case key cases default)
unfolding find_case tried
Spends-find_case key default [] = Within-Spends 0 _ (Within-pure 0 (int default))
Spends-find_case key default (case ∷ cases) =
    Spends-bind 1 0 1 spend _ (omega arith) Spends-spend (λ u. Within-Spends (length cases) _ (
      Within-choice (length cases) (int_eq case.input key) _ _
        (Within-pure (length cases) (int case.output)) (Within-find_case key default cases)))

-- A pure last step.
last :
    {A : Type 0} (k : ℕ) (m : Eval A) (f : A → EvalValue)
    → Spends k m
    → Spends k (m >>= λ a. pure (f a))
last k m f spends =
    Spends-bind k 0 k m _ (omega arith) spends (λ a. Within-Spends 0 _ (Within-pure 0 (f a)))

either_branch :
    {A : Type 0} (k : ℕ) (b : Bool) (m m' : Eval A)
    → Spends k m
    → Spends k m'
    → Spends k (if b then m else m')
either_branch k true m m' first second = first
either_branch k false m m' first second = second

-- What an outcome has taken: an answer `least` at least, an error one operation.
abbrev pub IsPaid : ℕ → ℕ → Result SchemaError EvalValue → Type 0
IsPaid least k (ok a) = least ≤ k
IsPaid least k (err e) = 1 ≤ k

module _ (context : EvalContext) where
  -- Any node costs an operation of its own.
  node : (e : Expression) → Spends 1 (costed (evaluate_body context e))
  unfolding Spends
  node e n a left h =
      let (k, r, small, genuine, same) = costs context e in
      omega (
        arith,
        positive k r genuine (sym (costed_none (evaluate_body context e)) ∙ same 0),
        charged-done k n r a left (sym (same n) ∙ h),
      )

  mutual
    unfolding evaluate_body least

    pays : (e : Expression) → Spends (least e) (costed (evaluate_body context e))
    pays (bool_literal value) = node (bool_literal value)
    pays (int_literal value) = node (int_literal value)
    pays payload_length = node payload_length
    pays form_version = node form_version
    pays (read_unsigned offset width) = node (read_unsigned offset width)
    pays (read_field_path path) = node (read_field_path path)
    pays (record_signature signature) = node (record_signature signature)
    pays (equal left right) =
        Spends-costed (least left + least right) _
          (Spends-compare (least left) (least right) _ _ (λ same. same) (pays left) (pays right))
    pays (not_equal left right) =
        Spends-costed (least left + least right) _
          (Spends-compare (least left) (least right) _ _ not (pays left) (pays right))
    pays (less_than left right) = Spends-costed (least left + least right) _ (
        Spends-bind (least left) (least right) (least left + least right)
          (integer (costed (evaluate_body context left))) _ (omega arith)
          (Spends-integer (least left) _ (pays left))
          (λ a. last (least right) _ _ (Spends-integer (least right) _ (pays right))))
    pays (bit_set value bit) = Spends-costed (least value) _ (
        either_branch (least value) (leb 64 bit) _ _ (Spends-throw _ (least value) _)
          (last (least value) _ _ (Spends-integer (least value) _ (pays value))))
    pays (and values) = Spends-costed (leasts values) _ (pays_all values)
    pays (or values) = Spends-costed (leasts values) _ (pays_any values)
    pays (negate value) =
        Spends-costed (least value) _
          (last (least value) _ _ (Spends-truth (least value) _ (pays value)))
    pays (add left right) =
        Spends-costed (least left + least right) _
          (Spends-arithmetic (least left) (least right) _ _ _ _ (pays left) (pays right))
    pays (subtract left right) =
        Spends-costed (least left + least right) _
          (Spends-arithmetic (least left) (least right) _ _ _ _ (pays left) (pays right))
    pays (multiply left right) =
        Spends-costed (least left + least right) _
          (Spends-arithmetic (least left) (least right) _ _ _ _ (pays left) (pays right))
    pays (divide left right) =
        Spends-costed (least left + least right) _
          (Spends-arithmetic (least left) (least right) _ _ _ _ (pays left) (pays right))
    pays (bit_count value) =
        Spends-costed (least value) _
          (last (least value) _ _ (Spends-integer (least value) _ (pays value)))
    pays (integer_lookup value cases default) = Spends-costed (least value + tried cases) _ (
        Spends-bind (least value) (tried cases) (least value + tried cases)
          (integer (costed (evaluate_body context value))) _ (omega arith)
          (Spends-integer (least value) _ (pays value)) (λ key. Spends-find_case key default cases))
    pays (select condition if_true if_false) =
        Spends-costed (least condition + min (least if_true) (least if_false)) _ (
          Spends-bind (least condition) (min (least if_true) (least if_false))
            (least condition + min (least if_true) (least if_false))
            (truth (costed (evaluate_body context condition))) _ (omega arith)
            (Spends-truth (least condition) _ (pays condition))
            (λ chosen.
              Spends-choice (least if_true) (least if_false) chosen _ _ (pays if_true)
                (pays if_false)))

    pays_all : (es : Expressions) → Spends (leasts es) (Evaluate.evaluate_all context es)
    pays_all nil = Within-Spends 0 _ (Within-pure 0 (bool true))
    pays_all (cons value values) =
        Spends-bind (least value) 0 (least value) (truth (costed (evaluate_body context value))) _
          (omega arith) (Spends-truth (least value) _ (pays value))
          (λ holds.
            Spends-choice 0 0 (not holds) _ _ (Within-Spends 0 _ (Within-pure 0 (bool false)))
              (Within-Spends (sizes values) _ (costs_all context values)))

    pays_any : (es : Expressions) → Spends (leasts es) (Evaluate.evaluate_any context es)
    pays_any nil = Within-Spends 0 _ (Within-pure 0 (bool false))
    pays_any (cons value values) =
        Spends-bind (least value) 0 (least value) (truth (costed (evaluate_body context value))) _
          (omega arith) (Spends-truth (least value) _ (pays value))
          (λ holds.
            Spends-choice 0 0 holds _ _ (Within-Spends 0 _ (Within-pure 0 (bool true)))
              (Within-Spends (sizes values) _ (costs_any context values)))

  -- An evaluation takes one number of operations and has one outcome, an answer or an error of its
  -- own, whatever the budget. The number is at most that of the nodes and lookup cases of the
  -- expression, at least one, and for an answer at least that of the nodes that every answer has
  -- evaluated. With fewer operations in the budget it fails as exhausted, with none left; with so many
  -- or more it has the outcome, and just that number is taken off.
  pub evaluate-Costs :
      (e : Expression)
      → (k : ℕ) × (r : Result SchemaError EvalValue) × (k ≤ size e)
        × IsPaid (least e) k r
        × IsGenuine r
        × ((max_operations : ℕ) → evaluate context e max_operations ≡ charged k r max_operations)
  unfolding evaluate Spends
  evaluate-Costs e =
      let (k, r, small, genuine, same) = costs context e in
      (k, r, small, paid k r genuine same, genuine, same)
    where
      paid :
          (k : ℕ) (r : Result SchemaError EvalValue)
          → IsGenuine r
          → ((n : ℕ) → costed (evaluate_body context e) n ≡ charged k r n)
          → IsPaid (least e) k r
      paid k (err fault) genuine same =
          positive k (err fault) genuine (sym (costed_none (evaluate_body context e)) ∙ same 0)
      paid k (ok a) genuine same = omega (arith, pays e k a 0 (same k ∙ spent k))
        where
          spent : (k : ℕ) → charged k (ok a) k ≡ done a 0
          spent k = ground arith
