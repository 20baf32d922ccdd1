-- ===== src/Action/Eval.antt =====
-- The value of an expression, and what its evaluation logs.
use squashfs_tools.Common.{
  ◌≡◌, refl, ap, if◌then◌else◌, ap₂, ◌∙◌, Bool, true, false, not, ◌&&◌, ◌||◌, List, [], ◌∷◌, ◌++◌,
}
use squashfs_tools.Action.{
  String, TestEntry, Expr, atom, unary, binary, op_and, op_or, Entry, said, text, eval_expr,
}

-- The Boolean value, all tests taken.
abbrev pub value : (TestEntry → List String → Bool) → Expr → Bool
value fn (atom t argv) = fn t argv
value fn (unary e) = not (value fn e)
value fn (binary l op_and r) = value fn l && value fn r
value fn (binary l op_or r) = value fn l || value fn r

and_elim : (b c : Bool) → elim b [ true ↦ c | false ↦ false ] ≡ b && c
and_elim true c = refl
and_elim false c = refl

or_elim : (b c : Bool) → elim b [ true ↦ true | false ↦ c ] ≡ b || c
or_elim true c = refl
or_elim false c = refl

-- eval_expr, which leaves out the second operand where the first decides, gives the Boolean value
-- of the expression.
pub eval_expr_lem : (fn : TestEntry → List String → Bool) (e : Expr) → eval_expr fn e ≡ value fn e
unfolding eval_expr
eval_expr_lem fn (atom t argv) = refl
eval_expr_lem fn (unary e) = ap not (eval_expr_lem fn e)
eval_expr_lem fn (binary l op_and r) =
    and_elim (eval_expr fn l) (eval_expr fn r)
    ∙ ap₂ (λ a b. a && b) (eval_expr_lem fn l) (eval_expr_lem fn r)
eval_expr_lem fn (binary l op_or r) =
    or_elim (eval_expr fn l) (eval_expr fn r)
    ∙ ap₂ (λ a b. a || b) (eval_expr_lem fn l) (eval_expr_lem fn r)

-- The tests that are taken, in their order, with what they say: those of a second operand only where the
-- value of the first does not decide.
abbrev pub taken : (TestEntry → List String → Bool) → Expr → List Entry
taken fn (atom t argv) = said t argv (fn t argv) ∷ []
taken fn (unary e) = taken fn e
taken fn (binary l op_and r) = taken fn l ++ (if value fn l then taken fn r else [])
taken fn (binary l op_or r) = taken fn l ++ (if value fn l then [] else taken fn r)

-- The tests that a log tells of.
abbrev pub tests_of : List Entry → List Entry
tests_of [] = []
tests_of (said t argv match ∷ log) = said t argv match ∷ tests_of log
tests_of (text s ∷ log) = tests_of log

-- The log of one operand, and of two, in brackets.
abbrev one : List Entry → List Entry
one log = text (b'(' ∷ []) ∷ (log ++ (text (b')' ∷ []) ∷ []))

abbrev both : String → List Entry → List Entry → List Entry
both sign log log' = text (b'(' ∷ []) ∷ (log ++ (text sign ∷ (log' ++ (text (b')' ∷ []) ∷ []))))

abbrev IsRight : Bool × List Entry → Bool → List Entry → Type 0
IsRight r v t = (r.0 ≡ v) × (tests_of r.1 ≡ t)
