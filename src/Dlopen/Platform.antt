-- ===== src/Dlopen/Platform.antt =====
-- What src/api/dlopen.rs sees of the world: errors (src/error.rs), the file system, the environment
-- and the search paths that come from it.
use Prim.Native.Char.{code}
use rust_dlopen.Common.{
  ℕ, String, Bool, true, false, ◌&&◌, Option, none, some, List, [], ◌∷◌, ◌++◌, map, ◌==◌,
  if◌then◌else◌,
}
use rust_dlopen.Common.Outcome.{Outcome, done, ◌>>=◌}
use rust_dlopen.LdCache
use rust_dlopen.LdCache.{LdCache}
use rust_dlopen.LinkerScript.{get_linker_script_libs}
use rust_dlopen.Registry.Types.{FileIdentity}
use rust_dlopen.Dlopen.Paths.{Text, parse_path_list, fixup_rpath, starts_with_text}

-- The kinds of `std::io::Error` that the code tells apart.
pub data IoErrorKind : Type 0 where
  not_found : IoErrorKind
  other_kind : ℕ → IoErrorKind

-- `Error`, as far as opening a library meets it; `elf_loader::Error` is a number or a message made
-- of an error of this library.
mutual
  pub data Error : Type 0 where
    loader_error : LoaderError → Error
    find_lib_error : Error
    io : IoErrorKind → Error

  pub data LoaderError : Type 0 where
    of_loader : ℕ → LoaderError
    custom_message : Error → LoaderError

pub data Result {ℓ} (A : Type ℓ) : Type ℓ where
  ok : A → Result A
  err : Error → Result A

-- `into_linker_error`
unfoldable pub into_linker_error : Error → LoaderError
into_linker_error (loader_error e) = e
into_linker_error find_lib_error = custom_message find_lib_error
into_linker_error (io k) = custom_message (io k)

-- `should_continue_library_search`, with the standard library.
unfoldable pub should_continue_library_search : Error → Bool
should_continue_library_search (io not_found) = true
should_continue_library_search (io (other_kind n)) = false
should_continue_library_search find_lib_error = false
should_continue_library_search (loader_error e) = false

-- The file system as the functions of src/os answer, `elf_loader`'s paths and `ElfFile::from_path`,
-- Rust's conversions between bytes, characters and strings, and the process's own tables.
pub record Platform : Type 0 where
  pub get_file_inode : String → Result FileIdentity
  pub read_file_limit : String → ℕ → Result (List ℕ)
  pub read_file : String → Result (List ℕ)
  pub from_path : String → Result (Unit {0})
  pub file_name : String → String
  pub join : String → String → String
  pub decode_lossy : List ℕ → Text
  pub string_of : Text → String
  pub utf8 : String → List ℕ
  -- ENVP: null, or the entries up to the null pointer; those that are not UTF-8 are `none`.
  pub envp : Option (List (Option Text))
  pub ld_cache : Option LdCache

unfoldable pub characters : String → Text
characters String.[] = []
characters (String.◌∷◌ c s) = code c ∷ characters s

abbrev prepended : ℕ → Option (Text × Text) → Option (Text × Text)
prepended x none = none
prepended x (some (k, v)) = some (x ∷ k, v)

-- `text.split_once(c)`
unfoldable pub split_once : ℕ → Text → Option (Text × Text)
split_once c [] = none
split_once c (x ∷ s) = if x == c then some ([], s) else prepended x (split_once c s)

abbrev pub text_beq : Text → Text → Bool
text_beq [] [] = true
text_beq [] (y ∷ t) = false
text_beq (x ∷ s) [] = false
text_beq (x ∷ s) (y ∷ t) = x == y && text_beq s t

-- The value of an entry for the variable `name`.
unfoldable pub value_of : Text → Option Text → Option Text
unfolding split_once
value_of name none = none
value_of name (some env) = elim (split_once b'=' env) [
  | none ↦ none
  | some (k, v) ↦ if text_beq k name then some v else none
]

-- The loop of `get_env`.
unfoldable pub first_value : Text → List (Option Text) → Option Text
unfolding value_of
first_value name [] = none
first_value name (entry ∷ rest) = elim (value_of name entry) [
  | some v ↦ some v
  | none ↦ first_value name rest
]

module _ (p : Platform) where
  -- `get_env`
  unfoldable pub get_env : String → Option Text
  unfolding first_value characters
  get_env name = elim p.envp [ none ↦ none | some entries ↦ first_value (characters name) entries ]

  -- LD_LIBRARY_PATH
  unfoldable pub ld_library_path : List String
  unfolding get_env parse_path_list
  ld_library_path = elim (get_env "LD_LIBRARY_PATH") [
    | some path ↦ map p.string_of (parse_path_list path)
    | none ↦ []
  ]

  -- `fixup_rpath` on strings, or no paths where the library has none.
  unfoldable pub run_path : String → Option String → List String
  unfolding fixup_rpath characters
  run_path owner none = []
  run_path owner (some path) = map p.string_of (fixup_rpath (characters owner) (characters path))

  -- `LD_CACHE.as_ref().and_then(|cache| cache.lookup(lib_name))`
  unfoldable pub cached_path : String → Outcome (Option String)
  cached_path lib_name = elim p.ld_cache [
    | none ↦ done none
    | some cache ↦ (do
      found ← LdCache.lookup cache (p.utf8 lib_name)
      done (elim found [ none ↦ none | some path ↦ some (p.string_of (p.decode_lossy path)) ]))
  ]

  -- `get_linker_script_libs` on the bytes of a file.
  unfoldable pub script_names : List ℕ → List String
  unfolding get_linker_script_libs
  script_names bytes = map p.string_of (get_linker_script_libs (p.decode_lossy bytes))

-- `push_platform_default_paths`, on x86-64.
abbrev pub platform_default_paths : List String
platform_default_paths = "/lib/x86_64-linux-gnu" ∷ "/usr/lib/x86_64-linux-gnu" ∷ []

-- DEFAULT_PATH
unfoldable pub default_path : List String
default_path = platform_default_paths ++ "/lib" ∷ "/usr/lib" ∷ "/lib64" ∷ "/usr/lib64" ∷ []

-- `is_elf_input`
unfoldable pub is_elf_input : List ℕ → Bool
unfolding starts_with_text
is_elf_input bytes = starts_with_text (127 ∷ b'E' ∷ b'L' ∷ b'F' ∷ []) bytes
