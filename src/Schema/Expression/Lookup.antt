-- ===== src/Schema/Expression/Lookup.antt =====
-- expression.rs, package.rs: a lookup table whose inputs ascend answers each of its inputs.
use bethkit.Prelude.{ℕ, zero, suc, ◌-◌, ◌≤◌, ◌≡◌, refl, sym, ap, ◌∙◌, arith, true, false}
use bethkit.Prelude.{List, [], ◌∷◌, some, length, get_elem?}
use mathlib.Core.Option.{some_inj}
use bethkit.Prelude.Int.{ℤ, int_eq, int_ltb}
use bethkit.Prelude.Action.{done, ◌>>=◌}
use bethkit.Schema.Expression.Data.{int, IntegerLookupCase}
use bethkit.Schema.Expression.Evaluate.{spend, find_case}
use bethkit.Schema.Expression.Validate.{out_of_order}

int_ltb_trans : (a b c : ℤ) → int_ltb a b ≡ true → int_ltb b c ≡ true → int_ltb a c ≡ true
int_ltb_trans a b c h k = ground (arith, h, k)

int_eq_refl : (a : ℤ) → int_eq a a ≡ true
int_eq_refl a = ground arith

int_ltb_ne : (a b : ℤ) → int_ltb a b ≡ true → int_eq a b ≡ false
int_ltb_ne a b h = ground (arith, h)

in_order :
    (a b : IntegerLookupCase) (cases : List IntegerLookupCase)
    → out_of_order (a ∷ b ∷ cases) ≡ false
    → (int_ltb a.input b.input ≡ true) × (out_of_order (b ∷ cases) ≡ false)
unfolding out_of_order
in_order a b cases ordered = ground (arith, ordered)

tail_ordered :
    (a : IntegerLookupCase) (cases : List IntegerLookupCase)
    → out_of_order (a ∷ cases) ≡ false
    → out_of_order cases ≡ false
unfolding out_of_order
tail_ordered a [] ordered = refl
tail_ordered a (b ∷ cases) ordered = (in_order a b cases ordered).1

-- The first input is below all others.
below :
    (a : IntegerLookupCase) (cases : List IntegerLookupCase) (i : ℕ) (c : IntegerLookupCase)
    → out_of_order (a ∷ cases) ≡ false
    → get_elem? cases i ≡ some c
    → int_ltb a.input c.input ≡ true
below a [] i c ordered found = cc found
below a (b ∷ cases) zero c ordered found =
    (ap (λ x. int_ltb a.input x.input) (sym (some_inj.0 found))) ∙ (in_order a b cases ordered).0
below a (b ∷ cases) (suc i) c ordered found =
    int_ltb_trans a.input b.input c.input (in_order a b cases ordered).0
      (below b cases i c (in_order a b cases ordered).1 found)

spend_one : (n k : ℕ) → suc k ≤ n → spend n ≡ done tt (n - 1)
unfolding spend
spend_one n k enough = ground arith

present :
    (cases : List IntegerLookupCase) (i : ℕ) (c : IntegerLookupCase) (default : ℤ) (n : ℕ)
    → out_of_order cases ≡ false
    → get_elem? cases i ≡ some c
    → length cases ≤ n
    → find_case c.input cases default n ≡ done (int c.output) (n - suc i)
unfolding find_case
present [] i c default n ordered found enough = cc found
present (a ∷ cases) zero c default n ordered found enough =
    rw
      (
        spend_one n (length cases) enough,
        ap (λ x. int_eq x.input c.input) (some_inj.0 found),
        int_eq_refl c.input,
        ◌>>=◌,
      )
      (ap (λ x. done (int x.output) (n - 1)) (some_inj.0 found))
present (a ∷ cases) (suc i) c default n ordered found enough =
    rw
      (
        spend_one n (length cases) enough,
        int_ltb_ne a.input c.input (below a cases i c ordered found),
        ◌>>=◌,
      )
      (present cases i c default (n - 1) (tail_ordered a cases ordered) found (omega arith)
        ∙ ap (done (int c.output)) (omega arith))

absent :
    (key default : ℤ) (cases : List IntegerLookupCase) (n : ℕ)
    → ((i : ℕ) (c : IntegerLookupCase) → get_elem? cases i ≡ some c → int_eq c.input key ≡ false)
    → length cases ≤ n
    → find_case key cases default n ≡ done (int default) (n - length cases)
unfolding find_case
absent key default [] n missing enough = ap (done (int default)) (omega arith)
absent key default (a ∷ cases) n missing enough =
    rw (spend_one n (length cases) enough, missing 0 a refl, ◌>>=◌)
      (absent key default cases (n - 1) (λ i c found. missing (suc i) c found) (omega arith)
        ∙ ap (done (int default)) (omega arith))

-- In a table that validation accepts as ascending, and with an operation left for each case, every
-- case answers its own input with its output, wherever it stands, and an input that no case has is
-- answered with the default.
pub find_case_complete :
    (cases : List IntegerLookupCase) (default : ℤ) (n : ℕ)
    → out_of_order cases ≡ false
    → length cases ≤ n
    → ((i : ℕ) (c : IntegerLookupCase)
        → get_elem? cases i ≡ some c
        → find_case c.input cases default n ≡ done (int c.output) (n - suc i))
      × ((key : ℤ)
          → ((i : ℕ) (c : IntegerLookupCase)
              → get_elem? cases i ≡ some c
              → int_eq c.input key ≡ false)
          → find_case key cases default n ≡ done (int default) (n - length cases))
find_case_complete cases default n ordered enough = (
  λ i c found. present cases i c default n ordered found enough,
  λ key missing. absent key default cases n missing enough,
)
