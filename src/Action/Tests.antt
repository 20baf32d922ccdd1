-- ===== src/Action/Tests.antt =====
-- The expression `"a"("x")&&!"b"()` in a table of two tests.
use squashfs_tools.Common.{◌≡◌, ◌≢◌, refl, Bool, true, false, List, [], ◌∷◌, some}
use squashfs_tools.Action.{
  String, TestEntry, op_and, Expr, atom, unary, binary, ok, stuck, get_token, read_string,
  find_token, is_token, parse, get_atom, parse_test, read_args,
}
use squashfs_tools.Action.Fuel.{parse-ne-stuck}
use squashfs_tools.Action.Print.{print}
use squashfs_tools.Action.Roundtrip.{parse-print}

abbrev test_a : TestEntry
test_a = record { name = b'a' ∷ []; args = some 1; parse_args = λ argv. true; exclude_ok = true }

abbrev test_b : TestEntry
test_b = record { name = b'b' ∷ []; args = some 0; parse_args = λ argv. true; exclude_ok = true }

abbrev table : List TestEntry
table = test_a ∷ test_b ∷ []

abbrev tested : Expr
tested = binary (atom test_a ((b'x' ∷ []) ∷ [])) op_and (unary (atom test_b []))

-- `a(x)&&!b`
abbrev plain : String
plain = b'a' ∷ b'(' ∷ b'x' ∷ b')' ∷ b'&' ∷ b'&' ∷ b'!' ∷ b'b' ∷ []

parses_plain : parse table false plain ≡ ok tested []
unfolding get_token read_string find_token is_token get_atom parse_test read_args
parses_plain = refl

parse-ne-stuck_example : parse table false plain ≢ stuck
parse-ne-stuck_example = parse-ne-stuck table false plain

parse-print_example : parse table true (print tested) ≡ ok tested []
parse-print_example = parse-print table true tested ((refl, refl, refl), (refl, refl, refl))

abbrev fn : TestEntry → List String → Bool
fn t argv = true
