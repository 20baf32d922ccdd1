-- ===== src/Directory.antt =====
-- The checks of squashfs-tools/unsquash-1234.c on the names of a directory, and the order of names.
-- A name is the list of the bytes up to its NUL; behind the end of a list a NUL is read.
pub mod Names
pub mod Order
pub mod Sort
mod Tests
use Prim.Native.Nat.{compare, Ordering}
use squashfs_tools.Common.{
  ℕ, suc, ◌+◌, Bool, true, false, ◌&&◌, ◌||◌, List, [], ◌∷◌, get_or, drop, if◌then◌else◌, ◌==◌,
}

-- `name[i]`.
abbrev pub char_at : List ℕ → ℕ → ℕ
char_at name i = get_or name i 0

-- The loop `while(name[0] != '/' && name[0] != '\0') name ++`: the bytes that it passes over.
unfoldable pub scan : List ℕ → ℕ
scan [] = 0
scan (c ∷ name) = if c == b'/' || c == 0 then 0 else suc (scan name)

-- The `name++` at a second dot.
abbrev pub skip : List ℕ → ℕ
skip name = if char_at name 0 == b'.' && char_at name 1 == b'.' then 1 else 0

-- The two tests under `if(name[0] == '.')`.
abbrev pub is_dots : List ℕ → Bool
is_dots name =
    char_at name 0 == b'.'
    && (char_at name (skip name + 1) == b'/' || char_at name (skip name + 1) == 0)

-- Where the loop stops, from the start of the name.
abbrev pub end_of : List ℕ → ℕ
end_of name = skip name + scan (drop (skip name) name)

-- check_name.
unfoldable pub check_name : List ℕ → ℕ → Bool
check_name name size =
    if is_dots name
    then false
    else (if char_at name (end_of name) == b'/' then false else end_of name == size)

-- strcmp, of names without a NUL inside: the sign of its result.
unfoldable pub strcmp : List ℕ → List ℕ → Ordering
strcmp [] [] = Ordering.eq
strcmp [] (b ∷ bs) = Ordering.lt
strcmp (a ∷ as') [] = Ordering.gt
strcmp (a ∷ as') (b ∷ bs) = elim (compare a b) [
  | Ordering.lt ↦ Ordering.lt
  | Ordering.eq ↦ strcmp as' bs
  | Ordering.gt ↦ Ordering.gt
]

abbrev pub is_greater : Ordering → Bool
is_greater Ordering.gt = true
is_greater _ = false

abbrev pub is_less : Ordering → Bool
is_less Ordering.lt = true
is_less _ = false

-- The loop of check_directory over the names of the entries.
unfoldable pub ascending : List (List ℕ) → Bool
ascending [] = true
ascending (a ∷ []) = true
ascending (a ∷ b ∷ names) = is_less (strcmp a b) && ascending (b ∷ names)

-- check_directory; fewer than two entries need no check.
unfoldable pub check_directory : List (List ℕ) → Bool
check_directory [] = true
check_directory (a ∷ []) = true
check_directory (a ∷ b ∷ names) = ascending (a ∷ b ∷ names)
