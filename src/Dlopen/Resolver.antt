-- ===== src/Dlopen/Resolver.antt =====
-- `LinkResolver` of src/api/dlopen.rs: from the name of a library to a library that is there, or to
-- a file to load. A linker script leads to further requests; their depth is the fuel.
pub mod Order
pub mod Existing
pub mod Safe
use mathlib.Core.Option
use rust_dlopen.Common.{
  ℕ, zero, suc, String, Bool, true, false, Option, none, some, List, [], ◌∷◌, ◌++◌, map,
  if◌then◌else◌,
}
use rust_dlopen.Names.{str_contains}
use rust_dlopen.Registry.Types.{LibraryLookup, lookup_shortname}
use rust_dlopen.Registry.LinkContext.{LinkContext}
use rust_dlopen.Dlopen.Platform.{
  Error, find_lib_error, Result, ok, err, Platform, should_continue_library_search, is_elf_input,
  script_names, ld_library_path, cached_path, default_path, run_path,
}
use rust_dlopen.Dlopen.Operation.{
  OpenContext, Ran, returned, failed, waiting, panicked, out_of_fuel, M, ◌>>=◌, ◌>>◌, pure,
  then_run, of_result, of_outcome, wait_for_library, inode_fallback, reserve_name,
}

-- `Box<dyn ElfReader>`: an `ElfBinary` or an `ElfFile`.
pub data ElfReader : Type 0 where
  elf_binary : String → List ℕ → ElfReader
  elf_file : String → ElfReader

-- `CandidateInput`
pub data CandidateInput : Type 0 where
  reader : ElfReader → CandidateInput
  script : List String → CandidateInput

-- `ResolvedKey` of the ELF loader.
pub data ResolvedKey : Type 0 where
  existing : String → ResolvedKey
  load : String → ElfReader → ResolvedKey

abbrev pub Visible : Type 0
Visible = Option (String → Bool)

-- `visible.is_some_and(|is_visible| is_visible(key))`
abbrev pub seen_by : Visible → String → Bool
seen_by none key = false
seen_by (some is_visible) key = is_visible key

-- `visible.map_or(true, |is_visible| is_visible(key))`
abbrev pub not_hidden_by : Visible → String → Bool
not_hidden_by none key = true
not_hidden_by (some is_visible) key = is_visible key

-- `resolve_found`
unfoldable pub resolve_found : Visible → LibraryLookup → Option ResolvedKey
unfolding lookup_shortname
resolve_found visible lib =
    if not_hidden_by visible (lookup_shortname lib)
    then some (existing (lookup_shortname lib))
    else none

abbrev pub found_by : Visible → Option LibraryLookup → Option ResolvedKey
found_by visible none = none
found_by visible (some lib) = resolve_found visible lib

abbrev pub to_list {ℓ} : {A : Type ℓ} → Option A → List A
to_list none = []
to_list (some a) = a ∷ []

abbrev pub then_result {ℓ κ} : {A : Type ℓ} {B : Type κ} → Result A → (A → Result B) → Result B
then_result (ok a) f = f a
then_result (err e) f = err e

module _ {L : LinkContext} {C : Type 0} where
  -- `resolve_first`
  unfoldable pub resolve_first : (C → M L ResolvedKey) → List C → M L (Option ResolvedKey)
  unfolding should_continue_library_search
  resolve_first resolve [] s = returned none s
  resolve_first resolve (candidate ∷ candidates) s = elim (resolve candidate s) [
    | returned key s' ↦ returned (some key) s'
    | failed e s' ↦ elim (should_continue_library_search e) [
      | true ↦ resolve_first resolve candidates s'
      | false ↦ failed e s'
    ]
    | waiting ↦ waiting
    | panicked ↦ panicked
    | out_of_fuel ↦ out_of_fuel
  ]

module _ {L : LinkContext} where
  -- `ok_or_else(|| find_lib_error(..))`
  abbrev pub or_not_found : Option ResolvedKey → M L ResolvedKey
  or_not_found none s = failed find_lib_error s
  or_not_found (some key) s = returned key s

  abbrev pub or_continue {ℓ} : {A : Type ℓ} → M L A → Option A → M L A
  or_continue m none = m
  or_continue m (some a) = pure a

  -- `resolve_script`, where `request` resolves the name of a library without further bytes.
  unfoldable pub resolve_script : (String → M L ResolvedKey) → List String → M L ResolvedKey
  unfolding resolve_first
  resolve_script request libs = do key ← resolve_first request libs; or_not_found key

  unfoldable pub resolve_existing_by_name : Visible → String → M L (Option ResolvedKey)
  unfolding wait_for_library resolve_found
  resolve_existing_by_name visible shortname =
      if seen_by visible shortname
      then pure (some (existing shortname))
      else (do lib ← wait_for_library true shortname; pure (found_by visible lib))

module _ (p : Platform) where
  unfoldable pub load_candidate_bytes : String → List ℕ → CandidateInput
  unfolding is_elf_input script_names
  load_candidate_bytes path bytes =
      if is_elf_input bytes then reader (elf_binary path bytes) else script (script_names p bytes)

  unfoldable pub load_candidate_file : String → Result CandidateInput
  unfolding is_elf_input script_names
  load_candidate_file path = then_result (p.read_file_limit path 64) (λ header.
      if is_elf_input header
      then then_result (p.from_path path) (λ _. ok (reader (elf_file path)))
      else then_result (p.read_file path) (λ content. ok (script (script_names p content))))

  unfoldable pub load_candidate : String → Option (List ℕ) → Result CandidateInput
  unfolding load_candidate_bytes load_candidate_file
  load_candidate path none = load_candidate_file path
  load_candidate path (some bytes) = ok (load_candidate_bytes path bytes)

  -- The directories of a search, in order: DT_RPATH counts only where there is no DT_RUNPATH.
  unfoldable pub search_dirs : List String → List String → List String
  unfolding ld_library_path
  search_dirs rpath [] = rpath ++ ld_library_path p ++ []
  search_dirs rpath (dir ∷ runpath) = [] ++ ld_library_path p ++ dir ∷ runpath

module _ (debug : Bool) (L : LinkContext) (p : Platform) where
  unfoldable pub resolve_existing_by_path : Visible → String → String → M L (Option ResolvedKey)
  unfolding inode_fallback resolve_found
  resolve_existing_by_path visible path shortname =
      if seen_by visible shortname
      then pure (some (existing shortname))
      else (do lib ← inode_fallback debug L p true path shortname; pure (found_by visible lib))

  unfoldable pub take_candidate :
      (String → M L ResolvedKey) → String → String → CandidateInput → M L ResolvedKey
  unfolding reserve_name resolve_script
  take_candidate request path shortname (reader r) = do
    reserve_name debug L p shortname path
    pure (load shortname r)
  take_candidate request path shortname (script libs) = resolve_script request libs

  -- `resolve_candidate_path`
  unfoldable pub resolve_candidate_path :
      (String → M L ResolvedKey) → Visible → Option (List ℕ) → String → M L ResolvedKey
  unfolding resolve_existing_by_path load_candidate take_candidate
  resolve_candidate_path request visible bytes path = do
    found ← resolve_existing_by_path visible path (p.file_name path)
    or_continue
        (do
          candidate ← of_result (load_candidate p path bytes)
          take_candidate request path (p.file_name path) candidate)
        found

  -- The part of `resolve_request` for a name without a '/'.
  unfoldable pub resolve_plain_name :
      (String → M L ResolvedKey)
      → Visible
      → List String
      → List String
      → String
      → Option (List ℕ)
      → M L ResolvedKey
  unfolding resolve_candidate_path resolve_first search_dirs cached_path default_path
  resolve_plain_name request visible rpath runpath lib_name bytes =
      let candidate = resolve_candidate_path request visible bytes in
      let joined = map (λ dir. p.join dir lib_name) in
      (do
        found ← resolve_first candidate (joined (search_dirs p rpath runpath))
        or_continue
            (do
              cached ← of_outcome (cached_path p lib_name)
              found ← resolve_first candidate (to_list cached)
              or_continue
                  (do found ← resolve_first candidate (joined default_path); or_not_found found)
                  found)
            found)

  -- `resolve_request`
  unfoldable pub resolve_request :
      ℕ → Visible → List String → List String → Option (List ℕ) → String → M L ResolvedKey
  unfolding resolve_existing_by_name resolve_candidate_path resolve_plain_name
  resolve_request zero visible rpath runpath bytes lib_name s = out_of_fuel
  resolve_request (suc fuel) visible rpath runpath bytes lib_name s =
      let request = resolve_request fuel visible rpath runpath none in
      then_run (resolve_existing_by_name visible (p.file_name lib_name) s) (
        or_continue (
          if str_contains lib_name "/"
          then resolve_candidate_path request visible bytes lib_name
          else resolve_plain_name request visible rpath runpath lib_name bytes))

  -- `resolve_dependency` of a library that `owner` needs.
  unfoldable pub resolve_dependency :
      ℕ → String → Option String → Option String → (String → Bool) → String → M L ResolvedKey
  unfolding resolve_request run_path
  resolve_dependency fuel owner rpath runpath is_visible needed =
      resolve_request fuel (some is_visible) (run_path p owner rpath) (run_path p owner runpath)
        none needed
