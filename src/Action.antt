-- ===== src/Action.antt =====
-- The expressions of squashfs-tools/action.c: get_token, the recursive descent of parse_expr, get_atom
-- and parse_test, and eval_expr. A string is the list of its characters, without its NUL; cur_ptr is the
-- list of what is left. Memory always suffices (MEM_ERROR exits).
pub mod Lexer
pub mod Fuel
pub mod Print
pub mod Roundtrip
pub mod Eval
mod Tests
use squashfs_tools.Common.{
  ℕ, zero, suc, ◌+◌, ◌*◌, Bool, true, false, not, ◌&&◌, ◌||◌, List, [], ◌∷◌, ◌++◌, drop, length,
  if◌then◌else◌, ◌==◌, Option, none, some,
}

abbrev pub String : Type 0
String = List ℕ

-- A token, with what get_token stores in *string.
pub data Token : Type 0 where
  open_bracket : Token
  close_bracket : Token
  and : Token
  or : Token
  not_sign : Token
  comma : Token
  at_sign : Token
  white_space : Token
  string : String → Token
  eof : Token

-- strncmp(s, t, size) == 0, for a `t` of at least `size` characters.
abbrev pub begins : ℕ → String → String → Bool
begins zero s t = true
begins (suc n) (a ∷ s) (b ∷ t) = a == b && begins n s t
begins (suc n) s t = false

-- token_table; the last field is the size.
abbrev pub token_table : List (String × Token × ℕ)
token_table =
    (b'(' ∷ [], open_bracket, 1)
    ∷ (b')' ∷ [], close_bracket, 1)
    ∷ (b'&' ∷ b'&' ∷ [], and, 2)
    ∷ (b'|' ∷ b'|' ∷ [], or, 2)
    ∷ (b'!' ∷ [], not_sign, 1)
    ∷ (b',' ∷ [], comma, 1)
    ∷ (b'@' ∷ [], at_sign, 1)
    ∷ (b' ' ∷ [], white_space, 1)
    ∷ (9 ∷ b' ' ∷ [], white_space, 1)
    ∷ []

-- The loop over the table.
unfoldable pub find_token : List (String × Token × ℕ) → String → Option (Token × ℕ)
find_token [] s = none
find_token ((t, k, n) ∷ table) s = elim (begins n s t) [
  | true ↦ some (k, n)
  | false ↦ find_token table s
]

unfoldable pub is_token : String → Bool
is_token s = elim (find_token token_table s) [ none ↦ false | some k ↦ true ]

-- The second loop of get_token, with the string read so far.
unfoldable pub read_string : Bool → String → String → Token × String
read_string quoted acc [] = (if quoted then eof else string acc, [])
read_string quoted acc (c ∷ []) = elim (c == b'"') [
  | true ↦ (if quoted then string acc else eof, [])
  | false ↦ elim (not quoted && is_token (c ∷ [])) [
    | true ↦ (string acc, c ∷ [])
    | false ↦ elim (c == b'\\') [
      | true ↦ (eof, [])
      | false ↦ (if quoted then eof else string (acc ++ (c ∷ [])), [])
    ]
  ]
]
read_string quoted acc (c ∷ d ∷ s) = elim (c == b'"') [
  | true ↦ read_string (not quoted) acc (d ∷ s)
  | false ↦ elim (not quoted && is_token (c ∷ d ∷ s)) [
    | true ↦ (string acc, c ∷ d ∷ s)
    | false ↦ elim (c == b'\\') [
      | true ↦ read_string quoted (acc ++ (d ∷ [])) s
      | false ↦ read_string quoted (acc ++ (c ∷ [])) (d ∷ s)
    ]
  ]
]

-- get_token: the token, and cur_ptr behind it.
unfoldable pub get_token : String → Token × String
get_token [] = (eof, [])
get_token (c ∷ s) = elim (find_token token_table (c ∷ s)) [
  | none ↦ read_string false [] (c ∷ s)
  | some entry ↦
      let (token, size) = entry in
      elim token [ white_space ↦ get_token s | other ↦ (other, drop size (c ∷ s)) ]
]

-- struct test_entry: `args` is `none` for -2, any number of arguments, and `parse_args` says only
-- whether the arguments are taken (always, where it is NULL).
pub record TestEntry : Type 0 where
  pub name : String
  pub args : Option ℕ
  pub parse_args : List String → Bool
  pub exclude_ok : Bool

pub data Op : Type 0 where
  op_and : Op
  op_or : Op

-- struct expr.
pub data Expr : Type 0 where
  atom : TestEntry → List String → Expr
  unary : Expr → Expr
  binary : Expr → Op → Expr → Expr

-- What a parsing function returns, with cur_ptr: `error` is NULL, and `stuck` an end of the fuel.
pub data Result {ℓ} (A : Type ℓ) : Type ℓ where
  ok : A → String → Result A
  error : Result A
  stuck : Result A

abbrev pub bind {ℓ κ} : {A : Type ℓ} {B : Type κ} → Result A → (A → String → Result B) → Result B
bind (ok a s) k = k a s
bind error k = error
bind stuck k = stuck

abbrev pub str_eq : String → String → Bool
str_eq [] [] = true
str_eq (a ∷ s) (b ∷ t) = a == b && str_eq s t
str_eq _ _ = false

-- The loop over test_table.
abbrev pub find_test : List TestEntry → String → Option TestEntry
find_test [] name = none
find_test (t ∷ tests) name = elim (str_eq name t.name) [
  | true ↦ some t
  | false ↦ find_test tests name
]

-- The loop over the arguments, on fuel; the token that begins an argument has been read.
unfoldable pub read_args : ℕ → Token → String → List String → Result (List String)
read_args zero token s argv = stuck
read_args (suc fuel) (string a) s argv =
    let (token, s') = get_token s in
    elim token [
      | close_bracket ↦ ok (argv ++ (a ∷ [])) s'
      | comma ↦ let (next, s'') = get_token s' in read_args fuel next s'' (argv ++ (a ∷ []))
      | _ ↦ error
    ]
read_args (suc fuel) _ s argv = error

-- From the peek_token of parse_test up to skip_args.
abbrev pub open_args : String → Result (List String)
open_args s =
    let (token, s1) = get_token s in
    elim token [
      | open_bracket ↦
          let (first, s2) = get_token s1 in
          elim first [ close_bracket ↦ ok [] s2 | other ↦ read_args (length s2 + 1) other s2 [] ]
      | _ ↦ ok [] s
    ]

abbrev pub arity_ok : Option ℕ → ℕ → Bool
arity_ok none n = true
arity_ok (some m) n = n == m

-- What follows skip_args.
abbrev pub check_args : TestEntry → List String → String → Result Expr
check_args t argv s =
    if arity_ok t.args (length argv) && t.parse_args argv then ok (atom t argv) s else error

-- parse_test; `exclude` says that the action is EXCLUDE_ACTION.
unfoldable pub parse_test : List TestEntry → Bool → String → String → Result Expr
parse_test tests exclude name s = elim (find_test tests name) [
  | none ↦ error
  | some t ↦ elim (exclude && not t.exclude_ok) [
    | true ↦ error
    | false ↦ bind (open_args s) (check_args t)
  ]
]

module _ (tests : List TestEntry) (exclude : Bool) where
  unfoldable mutual
    -- get_atom, on fuel.
    pub get_atom : ℕ → String → Result Expr
    get_atom zero s = stuck
    get_atom (suc fuel) s =
        let (token, s') = get_token s in
        elim token [
          | not_sign ↦ bind (get_atom fuel s') (λ e s''. ok (unary e) s'')
          | open_bracket ↦ parse_expr fuel true s'
          | string name ↦ parse_test tests exclude name s'
          | _ ↦ error
        ]

    -- parse_expr, on fuel.
    pub parse_expr : ℕ → Bool → String → Result Expr
    parse_expr zero subexp s = stuck
    parse_expr (suc fuel) subexp s = bind (get_atom fuel s) (λ e s'. parse_rest fuel subexp e s')

    -- The loop `while(expr)` of parse_expr.
    pub parse_rest : ℕ → Bool → Expr → String → Result Expr
    parse_rest zero subexp e s = stuck
    parse_rest (suc fuel) subexp e s =
        let (token, s') = get_token s in
        elim token [
          | eof ↦ if subexp then error else ok e s'
          | close_bracket ↦ if subexp then ok e s' else error
          | and ↦ bind (get_atom fuel s') (λ r s''. parse_rest fuel subexp (binary e op_and r) s'')
          | or ↦ bind (get_atom fuel s') (λ r s''. parse_rest fuel subexp (binary e op_or r) s'')
          | _ ↦ error
        ]

  -- parse_expr(0) on the whole string.
  abbrev pub parse : String → Result Expr
  parse s = parse_expr (2 * length s + 2) false s

-- eval_expr, where `fn` calls the test's fn on its arguments and the file at hand.
unfoldable pub eval_expr : (TestEntry → List String → Bool) → Expr → Bool
eval_expr fn (atom t argv) = fn t argv
eval_expr fn (unary e) = not (eval_expr fn e)
eval_expr fn (binary l op_and r) = elim (eval_expr fn l) [ true ↦ eval_expr fn r | false ↦ false ]
eval_expr fn (binary l op_or r) = elim (eval_expr fn l) [ true ↦ true | false ↦ eval_expr fn r ]

-- What eval_expr_log passes to expr_log: a test with its arguments and what it said, or a text.
pub data Entry : Type 0 where
  said : TestEntry → List String → Bool → Entry
  text : String → Entry

-- eval_expr_log: the value, and the log.
unfoldable pub eval_expr_log : (TestEntry → List String → Bool) → Expr → Bool × List Entry
eval_expr_log fn (atom t argv) = let match = fn t argv in (match, said t argv match ∷ [])
eval_expr_log fn (unary e) =
    let (match, log) = eval_expr_log fn e in (not match, text (b'!' ∷ []) ∷ log)
eval_expr_log fn (binary l o r) =
    let (match, log) = eval_expr_log fn l in
    let more : Bool = elim o [ op_and ↦ match | op_or ↦ not match ] in
    let sign : String = elim o [ op_and ↦ b'&' ∷ b'&' ∷ [] | op_or ↦ b'|' ∷ b'|' ∷ [] ] in
    elim more [
      | true ↦
          let (match', log') = eval_expr_log fn r in
          (match', text (b'(' ∷ []) ∷ (log ++ (text sign ∷ (log' ++ (text (b')' ∷ []) ∷ [])))))
      | false ↦ (match, text (b'(' ∷ []) ∷ (log ++ (text (b')' ∷ []) ∷ [])))
    ]
