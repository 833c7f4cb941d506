-- ===== src/Dlopen/Paths.antt =====
-- Search paths: `parse_path_list` and `fixup_rpath` of src/api/dlopen.rs, on the
-- characters of the texts.
pub mod Laws
use rust_dlopen.Common.{
  ℕ, zero, suc, Bool, true, false, not, ◌&&◌, ◌||◌, Option, none, some, List, [], ◌∷◌, ◌++◌, ◌==◌,
  drop, length, if◌then◌else◌,
}

abbrev pub Text : Type 0
Text = List ℕ

-- `text.contains(c)`
unfoldable pub contains_char : ℕ → Text → Bool
contains_char c [] = false
contains_char c (x ∷ s) = x == c || contains_char c s

-- The pieces of `text.split(c)`: the first, and the others.
unfoldable pub split_at : ℕ → Text → Text × List Text
split_at c [] = ([], [])
split_at c (x ∷ s) =
    let (first, rest) = split_at c s in if x == c then ([], first ∷ rest) else (x ∷ first, rest)

unfoldable pub is_empty_text : Text → Bool
is_empty_text [] = true
is_empty_text (x ∷ s) = false

unfoldable pub non_empty : List Text → List Text
unfolding is_empty_text
non_empty [] = []
non_empty (t ∷ ts) = let rest = non_empty ts in if is_empty_text t then rest else t ∷ rest

-- `parse_path_list`
unfoldable pub parse_path_list : Text → List Text
unfolding split_at non_empty
parse_path_list s = let (first, rest) = split_at b':' s in non_empty (first ∷ rest)

unfoldable pub starts_with_text : Text → Text → Bool
starts_with_text [] s = true
starts_with_text (p ∷ ps) [] = false
starts_with_text (p ∷ ps) (x ∷ s) = p == x && starts_with_text ps s

-- "ORIGIN"
abbrev pub origin : Text
origin = b'O' ∷ b'R' ∷ b'I' ∷ b'G' ∷ b'I' ∷ b'N' ∷ []

-- "{ORIGIN}"
abbrev pub braced_origin : Text
braced_origin = b'{' ∷ b'O' ∷ b'R' ∷ b'I' ∷ b'G' ∷ b'I' ∷ b'N' ∷ b'}' ∷ []

-- The loop over what follows each '$'.
unfoldable pub all_origin : List Text → Bool
unfolding starts_with_text
all_origin [] = true
all_origin (s ∷ rest) =
    (starts_with_text origin s || starts_with_text braced_origin s) && all_origin rest

-- `text.replace("$ORIGIN", dir)`: `skipped` characters are left of a piece that was replaced.
unfoldable pub replace_origin : Text → ℕ → Text → Text
unfolding starts_with_text
replace_origin dir skipped [] = []
replace_origin dir (suc skipped) (x ∷ s) = replace_origin dir skipped s
replace_origin dir zero (x ∷ s) = elim (starts_with_text (b'$' ∷ origin) (x ∷ s)) [
  | true ↦ dir ++ replace_origin dir 6 s
  | false ↦ x ∷ replace_origin dir zero s
]

-- What stands before the last '/': `rsplit_once('/')`.
unfoldable pub before_last_slash : Text → Option Text
before_last_slash [] = none
before_last_slash (x ∷ s) = elim (before_last_slash s) [
  | some dir ↦ some (x ∷ dir)
  | none ↦ if x == b'/' then some [] else none
]

-- The directory of a library, or ".".
unfoldable pub directory : Text → Text
unfolding before_last_slash
directory lib_path = elim (before_last_slash lib_path) [ some path ↦ path | none ↦ b'.' ∷ [] ]

-- `fixup_rpath`
unfoldable pub fixup_rpath : Text → Text → List Text
unfolding contains_char split_at all_origin replace_origin directory parse_path_list
fixup_rpath lib_path rpath =
    if not (contains_char b'$' rpath)
    then parse_path_list rpath
    else if not (all_origin (split_at b'$' rpath).1)
    then []
    else parse_path_list (replace_origin (directory lib_path) zero rpath)
