-- ===== src/Dlopen/Paths/Laws.antt =====
-- `fixup_rpath` and `parse_path_list` of src/api/dlopen.rs, on written paths.
use rust_dlopen.Common.{
  ℕ, zero, ◌≡◌, ◌∙◌, refl, Bool, true, false, not, ◌&&◌, ◌||◌, List, [], ◌∷◌, ◌++◌, ◌==◌, arith,
}
use rust_dlopen.Dlopen.Paths.{
  Text, contains_char, split_at, is_empty_text, non_empty, parse_path_list, starts_with_text,
  origin, braced_origin, all_origin, replace_origin, directory, fixup_rpath,
}

split_at_absent : (c : ℕ) (s : Text) → contains_char c s ≡ false → split_at c s ≡ (s, [])
unfolding split_at contains_char
split_at_absent c [] h = refl
split_at_absent c (x ∷ s) h = ground (arith, split_at_absent c s)

split_at-append :
    (c : ℕ) (a s : Text)
    → contains_char c a ≡ false
    → split_at c (a ++ c ∷ s) ≡ (a, (split_at c s).0 ∷ (split_at c s).1)
unfolding split_at contains_char
split_at-append c [] s h = ground arith
split_at-append c (x ∷ a) s h = ground (arith, split_at-append c a s)

-- A directory in a list: not empty, and with no colon.
unfoldable pub is_directory : Text → Bool
unfolding is_empty_text contains_char
is_directory t = not (is_empty_text t) && not (contains_char b':' t)

unfoldable pub are_directories : List Text → Bool
unfolding is_directory
are_directories [] = true
are_directories (t ∷ ts) = is_directory t && are_directories ts

-- A list of directories as it is written: a colon behind each.
unfoldable pub written : List Text → Text
written [] = []
written (t ∷ ts) = t ++ b':' ∷ written ts

-- Reading a written list of directories, none of them empty or with a colon in it, gives them
-- back in their order.
pub parse_path_list_lem :
    (ts : List Text) → are_directories ts ≡ true → parse_path_list (written ts) ≡ ts
unfolding parse_path_list are_directories is_directory written non_empty
parse_path_list_lem [] h = unfold split_at in unfold is_empty_text in refl
parse_path_list_lem (t ∷ ts) h =
    let piece = split_at-append b':' t (written ts) in
    let rest = parse_path_list_lem ts in ground (arith, piece, rest)

dollar_elsewhere :
    (x : ℕ) (s : Text) → (x == b'$') ≡ false → starts_with_text (b'$' ∷ origin) (x ∷ s) ≡ false
unfolding starts_with_text
dollar_elsewhere x s h = ground arith

replace_origin-append :
    (dir a s : Text)
    → contains_char b'$' a ≡ false
    → replace_origin dir zero (a ++ s) ≡ a ++ replace_origin dir zero s
unfolding replace_origin contains_char
replace_origin-append dir [] s h = refl
replace_origin-append dir (x ∷ a) s h =
    let no_ : (x == b'$') ≡ false = ground arith in
    let rest : replace_origin dir zero (a ++ s) ≡ a ++ replace_origin dir zero s =
      replace_origin-append dir a s (ground arith) in
    rw (replace_origin, dollar_elsewhere x (a ++ s) no_, rest)

replace_origin_absent :
    (dir s : Text) → contains_char b'$' s ≡ false → replace_origin dir zero s ≡ s
unfolding replace_origin contains_char
replace_origin_absent dir [] h = refl
replace_origin_absent dir (x ∷ s) h =
    let no_ : (x == b'$') ≡ false = ground arith in
    rw (replace_origin, dollar_elsewhere x s no_, replace_origin_absent dir s (ground arith))

contains_char-append : (c : ℕ) (a s : Text) → contains_char c (a ++ c ∷ s) ≡ true
unfolding contains_char
contains_char-append c [] s = ground arith
contains_char-append c (x ∷ a) s = ground (arith, contains_char-append c a s)

expands :
    (lib_path rpath : Text)
    → contains_char b'$' rpath ≡ true
    → all_origin (split_at b'$' rpath).1 ≡ true
    → fixup_rpath lib_path rpath ≡ parse_path_list (replace_origin (directory lib_path) zero rpath)
unfolding fixup_rpath
expands lib_path rpath h k = rw (fixup_rpath, h, k)

one_origin :
    (c : ℕ) (a piece : Text)
    → contains_char c a ≡ false
    → contains_char c piece ≡ false
    → (starts_with_text origin piece || starts_with_text braced_origin piece) ≡ true
    → all_origin (split_at c (a ++ c ∷ piece)).1 ≡ true
unfolding all_origin
one_origin c a piece h k o =
    rw (split_at-append c a piece h, split_at_absent c piece k) (ground (arith, o))

module _ (lib_path a s : Text) (plain_a : contains_char b'$' a ≡ false)
    (plain_s : contains_char b'$' s ≡ false) where
  -- A run path that mentions ${ORIGIN} once, and has no other '$', is used as it is written: the
  -- form is accepted and not expanded.
  pub fixup_rpath_braced :
      fixup_rpath lib_path (a ++ b'$' ∷ (braced_origin ++ s))
      ≡ parse_path_list (a ++ b'$' ∷ (braced_origin ++ s))
  fixup_rpath_braced =
      let dir = directory lib_path in
      let plain : contains_char b'$' (braced_origin ++ s) ≡ false =
        unfold contains_char in plain_s in
      let first : replace_origin dir zero (b'$' ∷ (braced_origin ++ s))
          ≡ b'$' ∷ replace_origin dir zero (braced_origin ++ s) =
        unfold replace_origin in unfold starts_with_text in refl in
      expands lib_path (a ++ b'$' ∷ (braced_origin ++ s))
        (contains_char-append b'$' a (braced_origin ++ s))
        (one_origin b'$' a (braced_origin ++ s) plain_a plain (unfold starts_with_text in refl))
      ∙ rw (
        replace_origin-append dir a (b'$' ∷ (braced_origin ++ s)) plain_a,
        first,
        replace_origin_absent dir (braced_origin ++ s) plain,
      )
