-- ===== src/Dlopen/Resolver/Order.antt =====
-- The order in which `resolve_request` of src/api/dlopen.rs tries the files of a library.
use rust_dlopen.Common.{
  ℕ, suc, String, ◌≡◌, refl, sym, Bool, false, Option, none, some, List, [], ◌∷◌, ◌++◌, map, arith,
}
use rust_dlopen.Common.Outcome.{done}
use rust_dlopen.Names.{str_contains}
use rust_dlopen.Registry.LinkContext.{LinkContext}
use rust_dlopen.Dlopen.Platform.{Platform, ld_library_path, cached_path, default_path}
use rust_dlopen.Dlopen.Operation.{
  OpenContext, Ran, returned, failed, waiting, panicked, out_of_fuel, M, ◌>>=◌, pure, then_run,
}
use rust_dlopen.Dlopen.Resolver.{
  Visible, ResolvedKey, resolve_first, resolve_candidate_path, resolve_plain_name, resolve_request,
  resolve_existing_by_name, or_continue, or_not_found, to_list, search_dirs,
}

-- What is tried after a search: nothing if it was successful.
abbrev or_search :
    {L : LinkContext} → M L (Option ResolvedKey) → Option ResolvedKey → M L (Option ResolvedKey)
or_search more none = more
or_search more (some key) = pure (some key)

resolve_first-append :
    (L : LinkContext) (f : String → M L ResolvedKey) (xs ys : List String) (s : OpenContext L)
    → resolve_first f (xs ++ ys) s
      ≡ then_run (resolve_first f xs s) (or_search (resolve_first f ys))
unfolding resolve_first
resolve_first-append L f [] ys s = refl
resolve_first-append L f (x ∷ xs) ys s = grind (arith, resolve_first-append L f xs ys)

-- The search order on its own: the directories of DT_RPATH, if there is no DT_RUNPATH; those of
-- LD_LIBRARY_PATH; those of DT_RUNPATH; the file that the cache knows; the default directories.
unfoldable pub search_order :
    Platform → List String → List String → Option String → String → List String
search_order p rpath runpath cached lib_name =
    map (λ dir. p.join dir lib_name)
      ((elim runpath [ [] ↦ rpath | d ∷ ds ↦ [] ]) ++ ld_library_path p ++ runpath)
    ++ to_list cached
    ++ map (λ dir. p.join dir lib_name) default_path

search_dirs_lem :
    (p : Platform) (rpath runpath : List String)
    → search_dirs p rpath runpath
      ≡ (elim runpath [ [] ↦ rpath | d ∷ ds ↦ [] ]) ++ ld_library_path p ++ runpath
unfolding search_dirs
search_dirs_lem p rpath [] = refl
search_dirs_lem p rpath (d ∷ ds) = refl

search_then :
    (L : LinkContext) (r : Ran L (Option ResolvedKey)) (more : M L (Option ResolvedKey))
    → then_run (then_run r (or_search more)) or_not_found
      ≡ then_run r (or_continue (more >>= or_not_found))
search_then L (returned none s) more = refl
search_then L (returned (some k) s) more = refl
search_then L (failed e s) more = refl
search_then L waiting more = refl
search_then L panicked more = refl
search_then L out_of_fuel more = refl

search_continue :
    (L : LinkContext) (r : Ran L (Option ResolvedKey)) (more : M L (Option ResolvedKey))
    (last : M L ResolvedKey)
    → then_run (then_run r (or_search more)) (or_continue last)
      ≡ then_run r (or_continue (more >>= or_continue last))
search_continue L (returned none s) more last = refl
search_continue L (returned (some k) s) more last = refl
search_continue L (failed e s) more last = refl
search_continue L waiting more last = refl
search_continue L panicked more last = refl
search_continue L out_of_fuel more last = refl

three_searches :
    (L : LinkContext) (f : String → M L ResolvedKey) (xs ys zs : List String) (s : OpenContext L)
    → then_run
        (resolve_first f xs s)
        (or_continue (resolve_first f ys >>= or_continue (resolve_first f zs >>= or_not_found)))
      ≡ then_run (resolve_first f (xs ++ ys ++ zs) s) or_not_found
three_searches L f xs ys zs s = rw (resolve_first-append L f (xs ++ ys) zs s) (
    rw (search_then L (resolve_first f (xs ++ ys) s) (resolve_first f zs)) (
      rw (resolve_first-append L f xs ys s) (
        sym (
          search_continue L (resolve_first f xs s) (resolve_first f ys)
            (resolve_first f zs >>= or_not_found)))))

module _ (debug : Bool) (L : LinkContext) (p : Platform) (visible : Visible)
    (rpath runpath : List String) (bytes : Option (List ℕ)) (lib_name : String)
    (cached : Option String) (known : cached_path p lib_name ≡ done cached) where
  pub plain_name_lem :
      (request : String → M L ResolvedKey) (s : OpenContext L)
      → resolve_plain_name debug L p request visible rpath runpath lib_name bytes s
        ≡ then_run
            (resolve_first
              (resolve_candidate_path debug L p request visible bytes)
              (search_order p rpath runpath cached lib_name)
              s)
            or_not_found
  unfolding resolve_plain_name search_order
  plain_name_lem request s =
      rw (known, search_dirs_lem p rpath runpath)
        (three_searches L (resolve_candidate_path debug L p request visible bytes)
          (map (λ dir. p.join dir lib_name)
            ((elim runpath [ [] ↦ rpath | d ∷ ds ↦ [] ]) ++ ld_library_path p ++ runpath))
          (to_list cached) (map (λ dir. p.join dir lib_name) default_path) s)

  -- A name without a '/' under which no library is found is searched for in one list of files, the
  -- search order: the first file that resolves is the answer, a file that does not exist is passed
  -- over, any other failure ends the search, and where all files fail so the library is not found.
  pub resolve_request-search_order :
      (fuel : ℕ) (s s' : OpenContext L)
      → str_contains lib_name "/" ≡ false
      → resolve_existing_by_name visible (p.file_name lib_name) s ≡ returned none s'
      → resolve_request debug L p (suc fuel) visible rpath runpath bytes lib_name s
        ≡ then_run
            (resolve_first
              (resolve_candidate_path debug L p
                (resolve_request debug L p fuel visible rpath runpath none)
                visible
                bytes)
              (search_order p rpath runpath cached lib_name)
              s')
            or_not_found
  unfolding resolve_request
  resolve_request-search_order fuel s s' plain missing =
      rw (missing, plain)
        (plain_name_lem (resolve_request debug L p fuel visible rpath runpath none) s')
