-- ===== src/Paths/Strings.antt =====
-- get_component of squashfs-tools/unsquashfs.c on the components of a path with slashes between them.
use squashfs_tools.Common.{
  ℕ, zero, suc, ◌<◌, ◌≡◌, ◌≢◌, refl, ap, ap₂, ◌∙◌, false, some, List, [], ◌∷◌, ◌++◌, length, ◌==◌,
  arith, All, replicate,
}
use squashfs_tools.Paths.{skip_slashes, before_slash, from_slash, component_of, get_component}

-- A component has a character, and no slash.
abbrev pub IsName : List ℕ → Type 0
IsName n = (0 < length n) × All (λ c. c ≢ b'/') n

-- Between the components `k + 1` slashes, and `k` at the end.
abbrev pub gap : ℕ → List (List ℕ) → ℕ
gap k [] = k
gap k (n ∷ ns) = suc k

abbrev pub text : ℕ → List (List ℕ) → List ℕ
text k [] = []
text k (n ∷ ns) = n ++ (replicate (gap k ns) b'/' ++ text k ns)

abbrev IsEnd : List ℕ → Type 0
IsEnd [] = Unit
IsEnd (c ∷ s) = c ≡ b'/'

gap-IsEnd : (k : ℕ) (ns : List (List ℕ)) → IsEnd (replicate (gap k ns) b'/' ++ text k ns)
gap-IsEnd zero [] = tt
gap-IsEnd (suc k) [] = refl
gap-IsEnd k (n ∷ ns) = refl

skip-replicate : (k : ℕ) (s : List ℕ) → skip_slashes (replicate k b'/' ++ s) ≡ skip_slashes s
skip-replicate zero s = refl
skip-replicate (suc k) s = skip-replicate k s

before_slash-append : (n s : List ℕ) → All (λ c. c ≢ b'/') n → IsEnd s → before_slash (n ++ s) ≡ n
before_slash-append [] [] h e = refl
before_slash-append [] (c ∷ s) h e = rw e refl
before_slash-append (c ∷ n) s (p, h) e =
    let other : (c == b'/') ≡ false = ground arith in
    rw other (ap (λ l. c ∷ l) (before_slash-append n s h e))

from_slash-append : (n s : List ℕ) → All (λ c. c ≢ b'/') n → IsEnd s → from_slash (n ++ s) ≡ s
from_slash-append [] [] h e = refl
from_slash-append [] (c ∷ s) h e = rw e refl
from_slash-append (c ∷ n) s (p, h) e =
    let other : (c == b'/') ≡ false = ground arith in rw other (from_slash-append n s h e)

skip-name : (n s : List ℕ) → IsName n → skip_slashes (n ++ s) ≡ n ++ s
skip-name [] s (h, p) = elim h [ ]
skip-name (c ∷ n) s (h, (p, q)) = let e : (c == b'/') ≡ false = ground arith in rw e refl

skip-text : (k : ℕ) (ns : List (List ℕ)) → All IsName ns → skip_slashes (text k ns) ≡ text k ns
skip-text k [] h = refl
skip-text k (n ∷ ns) (p, h) = skip-name n (replicate (gap k ns) b'/' ++ text k ns) p

component_of-append :
    (n s : List ℕ) → IsName n → IsEnd s → component_of (n ++ s) ≡ some (n, skip_slashes s)
component_of-append [] s (h, p) e = elim h [ ]
component_of-append (c ∷ n) s (h, p) e =
    ap₂ (λ (a b : List ℕ). some (a, skip_slashes b)) (before_slash-append (c ∷ n) s p e)
      (from_slash-append (c ∷ n) s p e)

pub get_component_lem :
    (k : ℕ) (n : List ℕ) (ns : List (List ℕ))
    → IsName n
    → All IsName ns
    → get_component (text k (n ∷ ns)) ≡ some (n, text k ns)
unfolding get_component
get_component_lem k n ns p q =
    let s = replicate (gap k ns) b'/' ++ text k ns in
    ap component_of (skip-name n s p)
    ∙ component_of-append n s p (gap-IsEnd k ns)
    ∙ ap (λ l. some (n, l)) (skip-replicate (gap k ns) (text k ns) ∙ skip-text k ns q)
