-- ===== src/Names/Laws.antt =====
-- What a short name is, and what normalising adds to the flags.
use Prim.Native.Char.{code}
use rust_dlopen.Common.{
  String, ◌≡◌, refl, Bool, true, false, ◌||◌, arith, ◌==◌, inl, inr, Bool-cases,
}
use rust_dlopen.Common.Eq.{str_eq}
use rust_dlopen.Flags.{OpenFlags, is_global, rtld_nodelete}
use rust_dlopen.Flags.Laws.{is_global-join}
use rust_dlopen.Names.{after_separator, shortname_from_name, normalized_flags}

-- Some character of the text separates path components.
unfoldable pub has_separator : String → Bool
has_separator String.[] = false
has_separator (String.◌∷◌ c s) = (code c == b'/' || code c == 92) || has_separator s

after_separator-clean :
    (best s : String)
    → (has_separator best ≡ true → has_separator s ≡ true)
    → has_separator (after_separator best s) ≡ false
unfolding after_separator has_separator
after_separator-clean best String.[] h = ground arith
after_separator-clean best (String.◌∷◌ c s) h = elim (Bool-cases (code c == b'/' || code c == 92)) [
  | inl e ↦ rw e (after_separator-clean s s (λ k. k))
  | inr e ↦ rw e (after_separator-clean best s (λ k. rw e at (h k)))
]

after_separator_of_clean :
    (best s : String) → has_separator s ≡ false → after_separator best s ≡ best
unfolding after_separator has_separator
after_separator_of_clean best String.[] h = refl
after_separator_of_clean best (String.◌∷◌ c s) h =
    elim (Bool-cases (code c == b'/' || code c == 92)) [
      | inl e ↦ ground arith
      | inr e ↦ rw e (after_separator_of_clean best s (ground arith))
    ]

-- A short name has no separator in it, whatever the path was.
pub shortname_clean : (name : String) → has_separator (shortname_from_name name) ≡ false
unfolding shortname_from_name
shortname_clean name = elim (Bool-cases (str_eq name "")) [
  | inl e ↦ rw e (unfold has_separator in refl)
  | inr e ↦ rw e (after_separator-clean name name (λ k. k))
]

-- A non-empty name with no separator is its own short name.
pub shortname_of_clean :
    (name : String)
    → has_separator name ≡ false
    → str_eq name "" ≡ false
    → shortname_from_name name ≡ name
unfolding shortname_from_name
shortname_of_clean name h e = rw e (after_separator_of_clean name name h)

nodelete_not_global : is_global rtld_nodelete ≡ false
unfolding is_global
nodelete_not_global = refl

-- Normalising never changes whether a library is global.
pub is_global-normalized :
    (name : String) (f : OpenFlags) → is_global (normalized_flags name f) ≡ is_global f
unfolding normalized_flags
is_global-normalized name f = ground (arith, is_global-join f rtld_nodelete, nodelete_not_global)
