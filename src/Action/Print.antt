-- ===== src/Action/Print.antt =====
-- Expressions written out: names and arguments quoted, and brackets round every operation.
use squashfs_tools.Common.{
  ℕ, suc, ◌+◌, ◌≤◌, ◌≡◌, Bool, true, false, not, ◌&&◌, List, [], ◌∷◌, ◌++◌, arith, length,
  length-append, some,
}
use squashfs_tools.Action.{
  String, TestEntry, Op, op_and, op_or, Expr, atom, unary, binary, find_test, arity_ok,
}
use squashfs_tools.Action.Lexer.{quote}

-- The arguments behind the first, and the bracket that closes them, in front of `rest`.
abbrev pub tail_onto : List String → String → String
tail_onto [] rest = b')' ∷ rest
tail_onto (a ∷ argv) rest = b',' ∷ (quote a ++ tail_onto argv rest)

abbrev pub args_onto : List String → String → String
args_onto [] rest = b')' ∷ rest
args_onto (a ∷ argv) rest = quote a ++ tail_onto argv rest

abbrev pub op_onto : Op → String → String
op_onto op_and rest = b'&' ∷ b'&' ∷ rest
op_onto op_or rest = b'|' ∷ b'|' ∷ rest

-- An expression in front of `rest`.
unfoldable pub print_onto : Expr → String → String
print_onto (atom t argv) rest = quote t.name ++ (b'(' ∷ args_onto argv rest)
print_onto (unary e) rest = b'!' ∷ print_onto e rest
print_onto (binary l o r) rest = b'(' ∷ print_onto l (op_onto o (print_onto r (b')' ∷ rest)))

abbrev pub print : Expr → String
print e = print_onto e []

-- The parser's rules on each test: it is the entry of its name, allowed in the action, and has the arguments that
-- it takes.
abbrev pub IsAllowed : List TestEntry → Bool → Expr → Type 0
IsAllowed tests exclude (atom t argv) =
    (find_test tests t.name ≡ some t)
    × ((exclude && not t.exclude_ok) ≡ false)
    × ((arity_ok t.args (length argv) && t.parse_args argv) ≡ true)
IsAllowed tests exclude (unary e) = IsAllowed tests exclude e
IsAllowed tests exclude (binary l o r) = IsAllowed tests exclude l × IsAllowed tests exclude r

-- Fuel for one expression.
abbrev pub need : Expr → ℕ
need (atom t argv) = 1
need (unary e) = suc (need e)
need (binary l o r) = need l + need r + 4

length-op_onto : (o : Op) (rest : String) → length (op_onto o rest) ≡ length rest + 2
length-op_onto op_and rest = omega arith
length-op_onto op_or rest = omega arith

pub length-tail_onto :
    (argv : List String) (rest : String)
    → length argv + length rest + 1 ≤ length (tail_onto argv rest)
length-tail_onto [] rest = omega arith
length-tail_onto (a ∷ argv) rest =
    omega (arith, length-append (quote a) (tail_onto argv rest), length-tail_onto argv rest)

length-args_onto :
    (argv : List String) (rest : String) → length rest + 1 ≤ length (args_onto argv rest)
length-args_onto [] rest = omega arith
length-args_onto (a ∷ argv) rest =
    omega (arith, length-append (quote a) (tail_onto argv rest), length-tail_onto argv rest)

pub length-print_onto :
    (e : Expr) (rest : String) → need e + length rest ≤ length (print_onto e rest)
unfolding print_onto
length-print_onto (atom t argv) rest =
    omega
      (arith, length-append (quote t.name) (b'(' ∷ args_onto argv rest), length-args_onto argv rest)
length-print_onto (unary e) rest = omega (arith, length-print_onto e rest)
length-print_onto (binary l o r) rest =
    let tail = print_onto r (b')' ∷ rest) in
    omega (
      arith,
      length-print_onto l (op_onto o tail),
      length-op_onto o tail,
      length-print_onto r (b')' ∷ rest),
    )
