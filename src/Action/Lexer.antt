-- ===== src/Action/Lexer.antt =====
-- The tokens of a string: each takes characters, and a quoted string is read back.
use mathlib.Core.Path.{subst}
use mathlib.Core.List.{append-nil, append_assoc}
use squashfs_tools.Common.{
  ℕ, suc, ◌≤◌, ◌<◌, ◌≡◌, ◌⊎◌, inl, inr, refl, ap, ◌∙◌, Bool, true, false, not, ◌&&◌, List, [], ◌∷◌,
  ◌++◌, arith, length, drop, length-drop, Bool-cases, ◌==◌, some, All, Option-cases, if◌then◌else◌,
}
use squashfs_tools.Action.{
  String, Token, white_space, string, eof, begins, token_table, find_token, is_token, read_string,
  get_token,
}

-- A quoted and escaped string.
abbrev pub escape : String → String
escape [] = []
escape (c ∷ s) = b'\\' ∷ c ∷ escape s

abbrev pub quote : String → String
quote s = b'"' ∷ (escape s ++ (b'"' ∷ []))

-- What ends a string that is not quoted.
abbrev pub IsEnd : String → Type 0
IsEnd s = (s ≡ []) ⊎ (is_token s ≡ true)

-- What begins a token is no quote.
no_quote : (c : ℕ) (s : String) → is_token (c ∷ s) ≡ true → (c == b'"') ≡ false
unfolding is_token find_token
no_quote c s h = elim (Bool-cases (c == b'"')) [
  | inr other ↦ other
  | inl same ↦
      let e : c ≡ b'"' = ground arith in
      let bad : is_token (b'"' ∷ s) ≡ true = subst (λ d. is_token (d ∷ s) ≡ true) e h in cc
]

read_end : (acc rest : String) → IsEnd rest → read_string false acc rest ≡ (string acc, rest)
unfolding read_string
read_end acc [] h = refl
read_end acc (c ∷ []) (inl n) = cc
read_end acc (c ∷ d ∷ s) (inl n) = cc
read_end acc (c ∷ []) (inr h) = rw (no_quote c [] h, h, read_string)
read_end acc (c ∷ d ∷ s) (inr h) = rw (no_quote c (d ∷ s) h, h, read_string)

read_quoted :
    (acc s rest : String)
    → read_string true acc (escape s ++ (b'"' ∷ rest)) ≡ read_string false (acc ++ s) rest
unfolding read_string
read_quoted acc [] [] = rw (append-nil acc) refl
read_quoted acc [] (d ∷ rest) = rw (append-nil acc) refl
read_quoted acc (c ∷ s) rest =
    read_quoted (acc ++ (c ∷ [])) s rest
    ∙ ap (λ a. read_string false a rest) (append_assoc acc (c ∷ []) s)

open_quote :
    (s rest : String)
    → read_string false [] (b'"' ∷ (escape s ++ (b'"' ∷ rest)))
      ≡ read_string true [] (escape s ++ (b'"' ∷ rest))
unfolding read_string
open_quote [] rest = refl
open_quote (c ∷ s) rest = refl

-- A quoted string is one token, whatever its characters are.
pub get_token-quote :
    (s rest : String) → IsEnd rest → get_token (quote s ++ rest) ≡ (string s, rest)
unfolding get_token find_token
get_token-quote s rest h =
    ap (λ t. read_string false [] (b'"' ∷ t)) (append_assoc (escape s) (b'"' ∷ []) rest)
    ∙ (open_quote s rest ∙ (read_quoted [] s rest ∙ read_end s rest h))

-- What a token leaves of a string of `n` characters: less, but at the end of the string.
abbrev pub Leaves : ℕ → Token × String → Type 0
Leaves n r = (r ≡ (eof, [])) ⊎ (length r.1 < n)

less : {m n : ℕ} (r : Token × String) → Leaves m r → m ≤ n → Leaves n r
less r (inl e) h = inl e
less r (inr l) h = inr (omega arith)

ends : (quoted : Bool) (acc : String) → Leaves 2 (if quoted then eof else string acc, [])
ends true acc = inl refl
ends false acc = inr (omega arith)

ends_quote : (quoted : Bool) (acc : String) → Leaves 2 (if quoted then string acc else eof, [])
ends_quote true acc = inr (omega arith)
ends_quote false acc = inl refl

read_string-Leaves :
    (quoted : Bool) (acc s : String) → Leaves (suc (length s)) (read_string quoted acc s)
unfolding read_string
read_string-Leaves true acc [] = inl refl
read_string-Leaves false acc [] = inr (omega arith)
read_string-Leaves quoted acc (c ∷ []) = elim (Bool-cases (c == b'"')) [
  | inl q ↦ rw (q, read_string) (ends_quote quoted acc)
  | inr q ↦ elim (Bool-cases (not quoted && is_token (c ∷ []))) [
    | inl t ↦ rw (q, t, read_string) (inr (omega arith))
    | inr t ↦ elim (Bool-cases (c == b'\\')) [
      | inl b ↦ rw (q, t, b, read_string) (inl refl)
      | inr b ↦ rw (q, t, b, read_string) (ends quoted (acc ++ (c ∷ [])))
    ]
  ]
]
read_string-Leaves quoted acc (c ∷ d ∷ s) = elim (Bool-cases (c == b'"')) [
  | inl q ↦ rw (q, read_string) (less _ (read_string-Leaves (not quoted) acc (d ∷ s)) (omega arith))
  | inr q ↦ elim (Bool-cases (not quoted && is_token (c ∷ d ∷ s))) [
    | inl t ↦ rw (q, t, read_string) (inr (omega arith))
    | inr t ↦ elim (Bool-cases (c == b'\\')) [
      | inl b ↦
          rw (q, t, b, read_string)
            (less _ (read_string-Leaves quoted (acc ++ (d ∷ [])) s) (omega arith))
      | inr b ↦
          rw (q, t, b, read_string)
            (less _ (read_string-Leaves quoted (acc ++ (c ∷ [])) (d ∷ s)) (omega arith))
    ]
  ]
]

-- A string that begins with no token gives one of at least one character, or a quote.
string-Leaves :
    (c : ℕ) (s : String)
    → is_token (c ∷ s) ≡ false
    → Leaves (length (c ∷ s)) (read_string false [] (c ∷ s))
unfolding read_string
string-Leaves c [] h = elim (Bool-cases (c == b'"')) [
  | inl q ↦ rw (q, read_string) (inl refl)
  | inr q ↦ elim (Bool-cases (c == b'\\')) [
    | inl b ↦ rw (q, h, b, read_string) (inl refl)
    | inr b ↦ rw (q, h, b, read_string) (inr (omega arith))
  ]
]
string-Leaves c (d ∷ s) h = elim (Bool-cases (c == b'"')) [
  | inl q ↦ rw (q, read_string) (less _ (read_string-Leaves true [] (d ∷ s)) (omega arith))
  | inr q ↦ elim (Bool-cases (c == b'\\')) [
    | inl b ↦ rw (q, h, b, read_string) (less _ (read_string-Leaves false (d ∷ []) s) (omega arith))
    | inr b ↦
        rw (q, h, b, read_string) (less _ (read_string-Leaves false (c ∷ []) (d ∷ s)) (omega arith))
  ]
]

size-pos :
    (table : List (String × Token × ℕ)) (s : String) (k : Token) (n : ℕ)
    → All (λ e. 0 < e.2) table
    → find_token table s ≡ some (k, n)
    → 0 < n
unfolding find_token
size-pos [] s k n p h = cc
size-pos ((t, k', n') ∷ table) s k n p h = elim (Bool-cases (begins n' s t)) [
  | inl b ↦ ground (arith, p.0, b, h)
  | inr b ↦ size-pos table s k n p.1 (ground (arith, b, h))
]

-- Every token but the end of the string takes at least one character.
pub get_token-Leaves : (s : String) → Leaves (length s) (get_token s)
unfolding get_token is_token
get_token-Leaves [] = inl refl
get_token-Leaves (c ∷ s) = elim (Option-cases (find_token token_table (c ∷ s))) [
  | inl n ↦ rw (n, get_token) (string-Leaves c s (rw (n, is_token) refl))
  | inr ((k, n), e) ↦
      rw (e, get_token) (here k n (size-pos token_table (c ∷ s) k n all_pos e) (get_token-Leaves s))
]
  where
    all_pos : All (λ e. 0 < e.2) token_table
    all_pos = ground arith

    here :
        (k : Token) (n : ℕ)
        → 0 < n
        → Leaves (length s) (get_token s)
        → Leaves
            (length (c ∷ s))
            (elim k [ white_space ↦ get_token s | other ↦ (other, drop n (c ∷ s)) ])
    here k n p rest =
        elim k
          as (λ k.
            Leaves (length (c ∷ s))
              (elim k [ white_space ↦ get_token s | other ↦ (other, drop n (c ∷ s)) ])) [
                | white_space ↦ less _ rest (omega arith)
                | other ↦ inr (omega (arith, p, length-drop n (c ∷ s)))
              ]
