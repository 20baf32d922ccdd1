-- ===== src/Action/Fuel.antt =====
-- The fuel of the parser suffices: every call of get_token but one that meets the end takes a character.
mod Args
use mathlib.Core.Path.{subst}
use squashfs_tools.Common.{
  ℕ, zero, suc, ◌+◌, ◌*◌, ◌≤◌, ◌<◌, ◌≡◌, ◌≢◌, ◌⊎◌, inl, inr, ap, Bool, true, false, not, ◌&&◌, List,
  [], ◌∷◌, ◌++◌, arith, length, Bool-cases, Option-cases, if◌then◌else◌,
}
use squashfs_tools.Action.{
  String, Token, open_bracket, close_bracket, and, or, not_sign, comma, string, eof, get_token,
  TestEntry, Expr, unary, binary, op_and, op_or, Result, ok, error, stuck, bind, find_test,
  read_args, open_args, arity_ok, check_args, parse_test, get_atom, parse_expr, parse_rest, parse,
}
use squashfs_tools.Action.Fuel.Args.{Fine, Fine-le, Fine-bind, no_end, at_most, parse_test-Fine}
use squashfs_tools.Action.Lexer.{Leaves, get_token-Leaves}

module _ (tests : List TestEntry) (exclude : Bool) where
  FineAtom : ℕ → Type 0
  FineAtom fuel =
      (s : String) → 2 * length s + 1 ≤ fuel → Fine (length s) (get_atom tests exclude fuel s)

  FineExpr : ℕ → Type 0
  FineExpr fuel =
      (subexp : Bool) (s : String)
      → 2 * length s + 2 ≤ fuel
      → Fine (length s) (parse_expr tests exclude fuel subexp s)

  FineRest : ℕ → Type 0
  FineRest fuel =
      (subexp : Bool) (e : Expr) (s : String)
      → 2 * length s + 1 ≤ fuel
      → Fine (length s) (parse_rest tests exclude fuel subexp e s)

  atom_step :
      (fuel n : ℕ) (r : Token × String)
      → 2 * n ≤ fuel
      → Leaves n r
      → FineAtom fuel
      → FineExpr fuel
      → Fine n (elim r.0 [
        | not_sign ↦ bind (get_atom tests exclude fuel r.1) (λ e s''. ok (unary e) s'')
        | open_bracket ↦ parse_expr tests exclude fuel true r.1
        | string name ↦ parse_test tests exclude name r.1
        | _ ↦ error
      ])
  unfolding FineAtom FineExpr
  atom_step fuel n (not_sign, s) h l a x =
      let less : length s < n = no_end not_sign s n l (λ q. cc) in
      Fine-bind (length s) n (get_atom tests exclude fuel s) (λ e s''. ok (unary e) s'')
        (a s (omega arith)) (λ e s'' k. omega arith)
  atom_step fuel n (open_bracket, s) h l a x =
      let less : length s < n = no_end open_bracket s n l (λ q. cc) in
      Fine-le (length s) n (parse_expr tests exclude fuel true s) (x true s (omega arith))
        (omega arith)
  atom_step fuel n (string name, s) h l a x =
      Fine-le (length s) n (parse_test tests exclude name s) (parse_test-Fine tests exclude name s)
        (at_most (string name, s) n l)
  atom_step fuel n (_, s) h l a x = tt

  operand :
      (fuel n : ℕ) (subexp : Bool) (o : Expr → Expr) (s : String)
      → 2 * n ≤ fuel
      → length s < n
      → FineAtom fuel
      → FineRest fuel
      → Fine n (
          bind
            (get_atom tests exclude fuel s)
            (λ r s''. parse_rest tests exclude fuel subexp (o r) s''))
  unfolding FineAtom FineRest
  operand fuel n subexp o s h less a x =
      Fine-bind (length s) n (get_atom tests exclude fuel s)
        (λ r s''. parse_rest tests exclude fuel subexp (o r) s'') (a s (omega arith))
        (λ r s'' k.
          Fine-le (length s'') n (parse_rest tests exclude fuel subexp (o r) s'')
            (x subexp (o r) s'' (omega arith)) (omega arith))

  rest_step :
      (fuel n : ℕ) (subexp : Bool) (e : Expr) (r : Token × String)
      → 2 * n ≤ fuel
      → Leaves n r
      → FineAtom fuel
      → FineRest fuel
      → Fine n (elim r.0 [
        | eof ↦ if subexp then error else ok e r.1
        | close_bracket ↦ if subexp then ok e r.1 else error
        | and ↦
            bind
              (get_atom tests exclude fuel r.1)
              (λ r' s''. parse_rest tests exclude fuel subexp (binary e op_and r') s'')
        | or ↦
            bind
              (get_atom tests exclude fuel r.1)
              (λ r' s''. parse_rest tests exclude fuel subexp (binary e op_or r') s'')
        | _ ↦ error
      ])
  rest_step fuel n true e (eof, s) h l a x = tt
  rest_step fuel n false e (eof, s) h l a x = at_most (eof, s) n l
  rest_step fuel n true e (close_bracket, s) h l a x = at_most (close_bracket, s) n l
  rest_step fuel n false e (close_bracket, s) h l a x = tt
  rest_step fuel n subexp e (and, s) h l a x =
      operand fuel n subexp (binary e op_and) s h (no_end and s n l (λ q. cc)) a x
  rest_step fuel n subexp e (or, s) h l a x =
      operand fuel n subexp (binary e op_or) s h (no_end or s n l (λ q. cc)) a x
  rest_step fuel n subexp e (_, s) h l a x = tt

  all_fine : (fuel : ℕ) → FineAtom fuel × FineExpr fuel × FineRest fuel
  unfolding FineAtom FineExpr FineRest get_atom
  all_fine zero = (
    (λ s h. absurd (omega (arith, h))),
    (λ subexp s h. absurd (omega (arith, h))),
    (λ subexp e s h. absurd (omega (arith, h))),
  )
  all_fine (suc fuel) =
      let (a, x, r) = all_fine fuel in
      (
        (λ s h. atom_step fuel (length s) (get_token s) (omega arith) (get_token-Leaves s) a x),
        (λ subexp s h.
            Fine-bind (length s) (length s) (get_atom tests exclude fuel s)
              (λ e s'. parse_rest tests exclude fuel subexp e s') (a s (omega arith))
              (λ e s' k.
                Fine-le (length s') (length s) (parse_rest tests exclude fuel subexp e s')
                  (r subexp e s' (omega arith)) k)),
        (λ subexp e s h.
            rest_step fuel (length s) subexp e (get_token s) (omega arith) (get_token-Leaves s) a
              r),
      )

  -- The parser of expressions ends for every string, with an expression or an error: its fuel,
  -- of two rounds for each character and two more, suffices.
  pub parse-ne-stuck : (s : String) → parse tests exclude s ≢ stuck
  unfolding FineExpr
  parse-ne-stuck s h =
      subst (Fine (length s)) h ((all_fine (2 * length s + 2)).1 false s (omega arith))
