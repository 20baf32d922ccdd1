-- ===== src/Action/Fuel/Args.antt =====
-- The fuel for the arguments of a test suffices.
use squashfs_tools.Common.{
  ℕ, zero, suc, ◌+◌, ◌≤◌, ◌<◌, ◌≡◌, ◌≢◌, ◌⊎◌, inl, inr, ap, Bool, not, ◌&&◌, List, [], ◌∷◌, ◌++◌,
  arith, length, Bool-cases, Option-cases,
}
use squashfs_tools.Action.{
  String, Token, open_bracket, close_bracket, comma, string, eof, get_token, TestEntry, Result, ok,
  error, stuck, bind, find_test, read_args, open_args, arity_ok, check_args, parse_test,
}
use squashfs_tools.Action.Lexer.{Leaves, get_token-Leaves}

-- A result that is no end of the fuel, and leaves at most `n` characters.
abbrev pub Fine {ℓ} : {A : Type ℓ} → ℕ → Result A → Type 0
Fine n (ok a s) = length s ≤ n
Fine n error = Unit
Fine n stuck = ⊥

pub Fine-le {ℓ} : {A : Type ℓ} (m n : ℕ) (r : Result A) → Fine m r → m ≤ n → Fine n r
Fine-le m n (ok a s) f h = omega (arith, f)
Fine-le m n error f h = tt
Fine-le m n stuck f h = f

pub Fine-bind {ℓ κ} :
    {A : Type ℓ} {B : Type κ} (m n : ℕ) (r : Result A) (k : A → String → Result B)
    → Fine m r
    → ((a : A) (s : String) → length s ≤ m → Fine n (k a s))
    → Fine n (bind r k)
Fine-bind m n (ok a s) k f h = h a s f
Fine-bind m n error k f h = tt
Fine-bind m n stuck k f h = f

pub no_end : (token : Token) (s : String) (n : ℕ) → Leaves n (token, s) → token ≢ eof → length s < n
no_end token s n (inl e) h = absurd (h (ap (λ r. r.0) e))
no_end token s n (inr l) h = l

pub at_most : (r : Token × String) (n : ℕ) → Leaves n r → length r.1 ≤ n
at_most r n (inl e) = rw e (omega arith)
at_most r n (inr l) = omega (arith, l)

comma-ne-eof : comma ≢ eof
comma-ne-eof h = cc

-- One round of the loop over the arguments, `r` being the token behind the argument.
args_step :
    (fuel n : ℕ) (a : String) (argv : List String) (r : Token × String)
    → n < suc fuel
    → Leaves n r
    → ((next : Token) (s : String)
        → (next ≡ eof) ⊎ (length s < fuel)
        → 0 < fuel
        → Fine (length s) (read_args fuel next s (argv ++ (a ∷ []))))
    → Fine n (elim r.0 [
      | close_bracket ↦ ok (argv ++ (a ∷ [])) r.1
      | comma ↦ read_args fuel (get_token r.1).0 (get_token r.1).1 (argv ++ (a ∷ []))
      | _ ↦ error
    ])
args_step fuel n a argv (close_bracket, s) h l ih = at_most (close_bracket, s) n l
args_step fuel n a argv (comma, s) h l ih =
    let shorter : length s < n = no_end comma s n l (λ q. comma-ne-eof q) in
    let inner = get_token-Leaves s in
    let enough : ((get_token s).0 ≡ eof) ⊎ (length (get_token s).1 < fuel) = elim inner [
      | inl e ↦ inl (ap (λ r. r.0) e)
      | inr less ↦ inr (omega arith)
    ] in
    Fine-le (length (get_token s).1) n
      (read_args fuel (get_token s).0 (get_token s).1 (argv ++ (a ∷ [])))
      (ih (get_token s).0 (get_token s).1 enough (omega arith))
      (omega (arith, at_most (get_token s) (length s) inner))
args_step fuel n a argv (_, s) h l ih = tt

-- Fuel for one more round than there are characters behind the first argument.
read_args-Fine :
    (fuel : ℕ) (token : Token) (s : String) (argv : List String)
    → (token ≡ eof) ⊎ (length s < fuel)
    → 0 < fuel
    → Fine (length s) (read_args fuel token s argv)
unfolding read_args
read_args-Fine zero token s argv h p = absurd (omega (arith, p))
read_args-Fine (suc fuel) (string a) s argv (inl e) p = cc
read_args-Fine (suc fuel) (string a) s argv (inr h) p =
    args_step fuel (length s) a argv (get_token s) h (get_token-Leaves s)
      (λ next s' h' p'. read_args-Fine fuel next s' (argv ++ (a ∷ [])) h' p')
read_args-Fine (suc fuel) _ s argv h p = tt

open_step :
    (n : ℕ) (r : Token × String)
    → Leaves n r
    → Fine n
        (elim r.0 [ close_bracket ↦ ok [] r.1 | other ↦ read_args (length r.1 + 1) other r.1 [] ])
open_step n (token, s) l =
    elim token
      as (λ t.
        Fine n (elim t [ close_bracket ↦ ok [] s | other ↦ read_args (length s + 1) other s [] ])) [
          | close_bracket ↦ at_most (token, s) n l
          | other ↦
              Fine-le (length s) n (read_args (length s + 1) other s [])
                (read_args-Fine (length s + 1) other s [] (inr (omega arith)) (omega arith))
                (at_most (token, s) n l)
        ]

open_args-Fine : (s : String) → Fine (length s) (open_args s)
open_args-Fine s =
    elim (get_token s).0
      as (λ t. Fine (length s) (elim t [
        | open_bracket ↦ elim (get_token (get_token s).1).0 [
          | close_bracket ↦ ok [] (get_token (get_token s).1).1
          | other ↦
              read_args (length (get_token (get_token s).1).1 + 1) other
                (get_token (get_token s).1).1 []
        ]
        | _ ↦ ok [] s
      ])) [
        | open_bracket ↦
            Fine-le (length (get_token s).1) (length s)
              (elim (get_token (get_token s).1).0 [
                | close_bracket ↦ ok [] (get_token (get_token s).1).1
                | other ↦
                    read_args (length (get_token (get_token s).1).1 + 1) other
                      (get_token (get_token s).1).1 []
              ])
              (open_step (length (get_token s).1) (get_token (get_token s).1)
                (get_token-Leaves (get_token s).1))
              (at_most (get_token s) (length s) (get_token-Leaves s))
        | other ↦ omega arith
      ]

check_args-Fine :
    (t : TestEntry) (argv : List String) (s : String) → Fine (length s) (check_args t argv s)
check_args-Fine t argv s = elim (Bool-cases (arity_ok t.args (length argv) && t.parse_args argv)) [
  | inl fits ↦ rw fits (omega arith)
  | inr other ↦ rw other tt
]

pub parse_test-Fine :
    (tests : List TestEntry) (exclude : Bool) (name s : String)
    → Fine (length s) (parse_test tests exclude name s)
unfolding parse_test
parse_test-Fine tests exclude name s = elim (Option-cases (find_test tests name)) [
  | inl missing ↦ rw (missing, parse_test) tt
  | inr (t, found) ↦ elim (Bool-cases (exclude && not t.exclude_ok)) [
    | inl refused ↦ rw (found, refused, parse_test) tt
    | inr fits ↦
        rw (found, fits, parse_test)
          (Fine-bind (length s) (length s) (open_args s) (check_args t) (open_args-Fine s)
            (λ argv s' h.
              Fine-le (length s') (length s) (check_args t argv s') (check_args-Fine t argv s') h))
  ]
]
