-- ===== src/Action/Roundtrip.antt =====
-- Parsing what has been written out gives back the expression.
use mathlib.Core.List.{append_assoc}
use squashfs_tools.Common.{
  ℕ, zero, suc, ◌+◌, ◌*◌, ◌≤◌, ◌<◌, ◌≡◌, inr, refl, ap, ◌∙◌, Bool, true, false, List, [], ◌∷◌, ◌++◌,
  arith, length,
}
use squashfs_tools.Action.{
  String, Token, open_bracket, close_bracket, and, or, not_sign, comma, string, find_token,
  is_token, get_token, TestEntry, Op, op_and, op_or, Expr, atom, unary, binary, Result, ok, error,
  bind, read_args, open_args, parse_test, get_atom, parse_expr, parse_rest, parse,
}
use squashfs_tools.Action.Lexer.{quote, get_token-quote}
use squashfs_tools.Action.Print.{
  tail_onto, args_onto, op_onto, print_onto, print, IsAllowed, need, length-tail_onto,
  length-print_onto,
}

-- The signs that are printed are read as tokens.
read_open : (s : String) → get_token (b'(' ∷ s) ≡ (open_bracket, s)
unfolding get_token find_token
read_open s = refl

read_close : (s : String) → get_token (b')' ∷ s) ≡ (close_bracket, s)
unfolding get_token find_token
read_close s = refl

read_not : (s : String) → get_token (b'!' ∷ s) ≡ (not_sign, s)
unfolding get_token find_token
read_not s = refl

read_comma : (s : String) → get_token (b',' ∷ s) ≡ (comma, s)
unfolding get_token find_token
read_comma s = refl

token_of : Op → Token
token_of op_and = and
token_of op_or = or

read_op : (o : Op) (s : String) → get_token (op_onto o s) ≡ (token_of o, s)
unfolding get_token find_token token_of
read_op op_and s = refl
read_op op_or s = refl

read_arg :
    (a : String) (argv : List String) (rest : String)
    → get_token (quote a ++ tail_onto argv rest) ≡ (string a, tail_onto argv rest)
unfolding is_token find_token
read_arg a [] rest = get_token-quote a (b')' ∷ rest) (inr refl)
read_arg a (b ∷ argv) rest = get_token-quote a (tail_onto (b ∷ argv) rest) (inr refl)

-- The steps of the parser, by the token that it reads.
args_last :
    (fuel : ℕ) (a s s' : String) (acc : List String)
    → get_token s ≡ (close_bracket, s')
    → read_args (suc fuel) (string a) s acc ≡ ok (acc ++ (a ∷ [])) s'
unfolding read_args
args_last fuel a s s' acc h = rw (h, read_args) (ap (λ r. ok (acc ++ (a ∷ [])) r.1) h)

args_more :
    (fuel : ℕ) (a b s s' s'' : String) (acc : List String)
    → get_token s ≡ (comma, s')
    → get_token s' ≡ (string b, s'')
    → read_args (suc fuel) (string a) s acc ≡ read_args fuel (string b) s'' (acc ++ (a ∷ []))
unfolding read_args
args_more fuel a b s s' s'' acc h k =
    ap
      (λ r. elim r.0 [
        | close_bracket ↦ ok (acc ++ (a ∷ [])) r.1
        | comma ↦ read_args fuel (get_token r.1).0 (get_token r.1).1 (acc ++ (a ∷ []))
        | _ ↦ error
      ])
      h
    ∙ ap (λ r. read_args fuel r.0 r.1 (acc ++ (a ∷ []))) k

read_args-tail_onto :
    (fuel : ℕ) (a : String) (argv acc : List String) (rest : String)
    → length argv < fuel
    → read_args fuel (string a) (tail_onto argv rest) acc ≡ ok (acc ++ (a ∷ argv)) rest
read_args-tail_onto zero a argv acc rest h = absurd (omega (arith, h))
read_args-tail_onto (suc fuel) a [] acc rest h =
    args_last fuel a (b')' ∷ rest) rest acc (read_close rest)
read_args-tail_onto (suc fuel) a (b ∷ argv) acc rest h =
    args_more fuel a b (tail_onto (b ∷ argv) rest) (quote b ++ tail_onto argv rest)
      (tail_onto argv rest) acc (read_comma (quote b ++ tail_onto argv rest)) (read_arg b argv rest)
    ∙ (read_args-tail_onto fuel b argv (acc ++ (a ∷ [])) rest (omega arith)
        ∙ ap (λ l. ok l rest) (append_assoc acc (a ∷ []) (b ∷ argv)))

open_twice :
    (s s1 : String) (r : Token × String)
    → get_token s ≡ (open_bracket, s1)
    → get_token s1 ≡ r
    → open_args s
      ≡ elim r.0 [ close_bracket ↦ ok [] r.1 | other ↦ read_args (length r.1 + 1) other r.1 [] ]
open_twice s s1 r h k =
    ap
      (λ r. elim r.0 [
        | open_bracket ↦ elim (get_token r.1).0 [
          | close_bracket ↦ ok [] (get_token r.1).1
          | other ↦ read_args (length (get_token r.1).1 + 1) other (get_token r.1).1 []
        ]
        | _ ↦ ok [] s
      ])
      h
    ∙ ap
        (λ r. elim r.0 [
          | close_bracket ↦ ok [] r.1
          | other ↦ read_args (length r.1 + 1) other r.1 []
        ])
        k

open_args-args_onto :
    (argv : List String) (rest : String) → open_args (b'(' ∷ args_onto argv rest) ≡ ok argv rest
open_args-args_onto [] rest =
    open_twice (b'(' ∷ b')' ∷ rest) (b')' ∷ rest) (close_bracket, rest) (read_open (b')' ∷ rest))
      (read_close rest)
open_args-args_onto (a ∷ argv) rest =
    let s1 = args_onto (a ∷ argv) rest in
    let s2 = tail_onto argv rest in
    open_twice (b'(' ∷ s1) s1 (string a, s2) (read_open s1) (read_arg a argv rest)
    ∙ read_args-tail_onto (length s2 + 1) a argv [] rest (omega (arith, length-tail_onto argv rest))

module _ (tests : List TestEntry) (exclude : Bool) where
  parse_test-args_onto :
      (t : TestEntry) (argv : List String) (rest : String)
      → IsAllowed tests exclude (atom t argv)
      → parse_test tests exclude t.name (b'(' ∷ args_onto argv rest) ≡ ok (atom t argv) rest
  unfolding parse_test
  parse_test-args_onto t argv rest h = rw (h.0, h.1, open_args-args_onto argv rest, h.2, parse_test)

  atom_string :
      (fuel : ℕ) (s name s' : String)
      → get_token s ≡ (string name, s')
      → get_atom tests exclude (suc fuel) s ≡ parse_test tests exclude name s'
  unfolding get_atom
  atom_string fuel s name s' h = rw (h, get_atom) (ap (λ r. parse_test tests exclude name r.1) h)

  atom_not :
      (fuel : ℕ) (s s' s'' : String) (e : Expr)
      → get_token s ≡ (not_sign, s')
      → get_atom tests exclude fuel s' ≡ ok e s''
      → get_atom tests exclude (suc fuel) s ≡ ok (unary e) s''
  unfolding get_atom
  atom_not fuel s s' s'' e h k =
      let wrap : Expr → String → Result Expr = (λ e s. ok (unary e) s) in
      rw (h, get_atom)
        (ap (λ r. bind (get_atom tests exclude fuel r.1) wrap) h ∙ ap (λ r. bind r wrap) k)

  atom_open :
      (fuel : ℕ) (s s' : String)
      → get_token s ≡ (open_bracket, s')
      → get_atom tests exclude (suc fuel) s ≡ parse_expr tests exclude fuel true s'
  unfolding get_atom
  atom_open fuel s s' h = rw (h, get_atom) (ap (λ r. parse_expr tests exclude fuel true r.1) h)

  expr_first :
      (fuel : ℕ) (subexp : Bool) (s s' : String) (e : Expr)
      → get_atom tests exclude fuel s ≡ ok e s'
      → parse_expr tests exclude (suc fuel) subexp s ≡ parse_rest tests exclude fuel subexp e s'
  unfolding get_atom
  expr_first fuel subexp s s' e h =
      ap (λ r. bind r (λ e s'. parse_rest tests exclude fuel subexp e s')) h

  rest_op :
      (fuel : ℕ) (subexp : Bool) (l r : Expr) (o : Op) (s s' s'' : String)
      → get_token s ≡ (token_of o, s')
      → get_atom tests exclude fuel s' ≡ ok r s''
      → parse_rest tests exclude (suc fuel) subexp l s
        ≡ parse_rest tests exclude fuel subexp (binary l o r) s''
  unfolding get_atom token_of
  rest_op fuel subexp l r op_and s s' s'' h k =
      let next : Expr → String → Result Expr =
        (λ r s. parse_rest tests exclude fuel subexp (binary l op_and r) s) in
      rw (h, parse_rest)
        (ap (λ r. bind (get_atom tests exclude fuel r.1) next) h ∙ ap (λ r. bind r next) k)
  rest_op fuel subexp l r op_or s s' s'' h k =
      let next : Expr → String → Result Expr =
        (λ r s. parse_rest tests exclude fuel subexp (binary l op_or r) s) in
      rw (h, parse_rest)
        (ap (λ r. bind (get_atom tests exclude fuel r.1) next) h ∙ ap (λ r. bind r next) k)

  rest_close :
      (fuel : ℕ) (e : Expr) (s s' : String)
      → get_token s ≡ (close_bracket, s')
      → parse_rest tests exclude (suc fuel) true e s ≡ ok e s'
  unfolding get_atom
  rest_close fuel e s s' h = rw (h, parse_rest) (ap (λ r. ok e r.1) h)

  get_atom-print_onto :
      (fuel : ℕ) (e : Expr) (rest : String)
      → need e ≤ fuel
      → IsAllowed tests exclude e
      → get_atom tests exclude fuel (print_onto e rest) ≡ ok e rest
  unfolding print_onto is_token find_token
  get_atom-print_onto zero (atom t argv) rest h p = absurd (omega (arith, h))
  get_atom-print_onto zero (unary e) rest h p = absurd (omega (arith, h))
  get_atom-print_onto zero (binary l o r) rest h p = absurd (omega (arith, h))
  get_atom-print_onto (suc fuel) (atom t argv) rest h p =
      let s' = b'(' ∷ args_onto argv rest in
      atom_string fuel (quote t.name ++ s') t.name s' (get_token-quote t.name s' (inr refl))
      ∙ parse_test-args_onto t argv rest p
  get_atom-print_onto (suc fuel) (unary e) rest h p =
      let s' = print_onto e rest in
      atom_not fuel (b'!' ∷ s') s' rest e (read_not s')
        (get_atom-print_onto fuel e rest (omega arith) p)
  get_atom-print_onto (suc (suc (suc (suc fuel)))) (binary l o r) rest h p =
      let s4 = b')' ∷ rest in
      let s3 = print_onto r s4 in
      let s2 = op_onto o s3 in
      let s1 = print_onto l s2 in
      atom_open (suc (suc (suc fuel))) (b'(' ∷ s1) s1 (read_open s1)
      ∙ (expr_first (suc (suc fuel)) true s1 s2 l
            (get_atom-print_onto (suc (suc fuel)) l s2 (omega arith) p.0)
          ∙ (rest_op (suc fuel) true l r o s2 s3 s4 (read_op o s3)
                (get_atom-print_onto (suc fuel) r s4 (omega arith) p.1)
              ∙ rest_close fuel (binary l o r) s4 rest (read_close rest)))
  get_atom-print_onto (suc _) (binary l o r) rest h p = absurd (omega (arith, h))

  rest_eof : (fuel : ℕ) (e : Expr) → parse_rest tests exclude (suc fuel) false e [] ≡ ok e []
  unfolding get_atom get_token
  rest_eof fuel e = refl

  -- An expression that is written out, with quoted names and arguments and brackets, is parsed
  -- back as it was, whatever characters it has, where each test is the entry of its name,
  -- allowed in the action, and has arguments that it takes.
  pub parse-print : (e : Expr) → IsAllowed tests exclude e → parse tests exclude (print e) ≡ ok e []
  parse-print e p =
      let n = 2 * length (print e) in
      let fuel : n + 2 ≡ suc (suc n) = omega arith in
      ap (λ f. parse_expr tests exclude f false (print e)) fuel
      ∙ (expr_first (suc n) false (print e) [] e
            (get_atom-print_onto (suc n) e [] (omega (arith, length-print_onto e [])) p)
          ∙ rest_eof n e)
