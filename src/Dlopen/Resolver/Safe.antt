-- ===== src/Dlopen/Resolver/Safe.antt =====
-- `resolve_request` of src/api/dlopen.rs, in an operation that no other thread disturbs.
use rust_dlopen.Common.{
  ℕ, zero, suc, String, ◌≡◌, refl, sym, subst, Bool, true, false, Option, none, some, List, [], ◌∷◌,
  ◌++◌, map, All, All-append, if◌then◌else◌, Bool-cases, inl, inr,
}
use rust_dlopen.Common.Maybe.{elem}
use rust_dlopen.Common.Outcome.{done}
use rust_dlopen.Names.{str_contains}
use rust_dlopen.Registry.LinkContext.{LinkContext, LinkContextLaws}
use rust_dlopen.Registry.State.{Manager}
use rust_dlopen.Registry.Consistent.{registered}
use rust_dlopen.Dlopen.Platform.{
  Result, ok, err, Platform, cached_path, default_path, ld_library_path,
  should_continue_library_search,
}
use rust_dlopen.Dlopen.Operation.{
  OpenContext, Ran, returned, failed, waiting, panicked, out_of_fuel, M, pure, then_run, of_result,
  reserve_name,
}
use rust_dlopen.Dlopen.Alone.{Ensures, Ensures-then_run, IsReady, Kept}
use rust_dlopen.Dlopen.Alone.Steps.{reserve_name_lem}
use rust_dlopen.Dlopen.Resolver.{
  Visible, not_hidden_by, ResolvedKey, load, CandidateInput, reader, script,
  resolve_existing_by_name, resolve_existing_by_path, resolve_first, resolve_script, or_not_found,
  or_continue, take_candidate, load_candidate, resolve_candidate_path, resolve_plain_name,
  resolve_request, to_list,
}
use rust_dlopen.Dlopen.Resolver.Order.{search_order, plain_name_lem}
use rust_dlopen.Dlopen.Resolver.Existing
use rust_dlopen.Dlopen.Resolver.Existing.{by_name_lem, by_path_lem}

-- What the search relies on: a directory joined with a plain name ends in that name, the cache can
-- be read, and it leads from a name to a file of that name.
pub record PathLaws (p : Platform) : Type 0 where
  pub join_name :
      (dir name : String)
      → str_contains name "/" ≡ false
      → p.file_name (p.join dir name) ≡ p.file_name name
  pub cache_reads : (name : String) → (found : Option String) × (cached_path p name ≡ done found)
  pub cached_name :
      (name path : String)
      → cached_path p name ≡ done (some path)
      → p.file_name path ≡ p.file_name name

module _ (debug : Bool) (L : LinkContext) (laws : LinkContextLaws L) (start : Manager L)
    (p : Platform) (visible : Visible) (s : OpenContext L) (ready : IsReady L start s)
    (shows : (k : String) → registered L s.manager k ≡ true → not_hidden_by visible k ≡ true)
    (path_laws : PathLaws p) where
  abbrev Resolved : ResolvedKey → OpenContext L → Type 0
  Resolved = Existing.Resolved debug L laws start p visible s ready shows

  abbrev Searched : Option ResolvedKey → OpenContext L → Type 0
  Searched = Existing.Searched debug L laws start p visible s ready shows

  -- A candidate that is safe in the state of the request.
  abbrev IsSafe : Ran L ResolvedKey → Type 0
  IsSafe = Ensures Resolved s

  first_with :
      (f : String → M L ResolvedKey) (c : String) (cs : List String) (r : Ran L ResolvedKey)
      → f c s ≡ r
      → IsSafe r
      → Ensures Searched s (resolve_first f cs s)
      → Ensures Searched s (resolve_first f (c ∷ cs) s)
  unfolding resolve_first
  first_with f c cs (returned k s') e h rest =
      let ran : resolve_first f (c ∷ cs) s ≡ returned (some k) s' = rw (e, resolve_first) in
      subst (Ensures Searched s) (sym ran) h
  first_with f c cs (failed x s') e h rest = elim (Bool-cases (should_continue_library_search x)) [
    | inl go ↦
        let ran : resolve_first f (c ∷ cs) s ≡ resolve_first f cs s =
          rw (e, resolve_first, go, h) in
        subst (Ensures Searched s) (sym ran) rest
    | inr stop ↦
        let ran : resolve_first f (c ∷ cs) s ≡ failed x s' = rw (e, resolve_first, stop) in
        subst (Ensures Searched s) (sym ran) h
  ]
  first_with f c cs waiting e h rest = subst (Ensures Searched s) (sym (waits e)) tt
    where
      waits : f c s ≡ waiting → resolve_first f (c ∷ cs) s ≡ waiting
      waits d = rw (d, resolve_first)
  first_with f c cs panicked e h rest = absurd h
  first_with f c cs out_of_fuel e h rest = subst (Ensures Searched s) (sym (ends e)) tt
    where
      ends : f c s ≡ out_of_fuel → resolve_first f (c ∷ cs) s ≡ out_of_fuel
      ends d = rw (d, resolve_first)

  first_lem :
      (f : String → M L ResolvedKey) (cs : List String)
      → All (λ c. IsSafe (f c s)) cs
      → Ensures Searched s (resolve_first f cs s)
  unfolding resolve_first
  first_lem f [] a = refl
  first_lem f (c ∷ cs) (a, rest) = first_with f c cs (f c s) refl a (first_lem f cs rest)

  found_or_failed :
      (key : Option ResolvedKey) (s' : OpenContext L)
      → Searched key s'
      → IsSafe (or_not_found key s')
  found_or_failed none s' e = e
  found_or_failed (some key) s' r = r

  continue_lem :
      (m : M L ResolvedKey)
      → IsSafe (m s)
      → (found : Option ResolvedKey) (s' : OpenContext L) → Searched found s'
      → IsSafe (or_continue m found s')
  continue_lem m safe none s' e = subst (λ (t : OpenContext L). IsSafe (m t)) (sym e) safe
  continue_lem m safe (some key) s' r = r

  named_lem :
      (m : M L ResolvedKey) (name : String)
      → (registered L s.manager name ≡ false → IsSafe (m s))
      → (found : Option ResolvedKey) (s' : OpenContext L)
      → Existing.Named debug L laws start p visible s ready shows name found s'
      → IsSafe (or_continue m found s')
  named_lem m name safe none s' (e, unknown) =
      subst (λ (t : OpenContext L). IsSafe (m t)) (sym e) (safe unknown)
  named_lem m name safe (some key) s' r = r

  module _ (request : String → M L ResolvedKey)
      (safe_request : (name : String) → IsSafe (request name s)) where
    All-requests : (names : List String) → All (λ name. IsSafe (request name s)) names
    All-requests [] = tt
    All-requests (name ∷ names) = (safe_request name, All-requests names)

    take_lem :
        (path : String) (candidate : CandidateInput)
        → registered L s.manager (p.file_name path) ≡ false
        → IsSafe (take_candidate debug L p request path (p.file_name path) candidate s)
    unfolding take_candidate resolve_script
    take_lem path (reader r) unknown =
        Ensures-then_run
          (λ _ s'. Kept L start s s' × (elem (p.file_name path) s'.added_names ≡ true)) Resolved s
          (reserve_name debug L p (p.file_name path) path s) (λ _. pure (load (p.file_name path) r))
          (reserve_name_lem debug L laws start p (p.file_name path) path s ready unknown)
          (λ _ s' k. k)
    take_lem path (script names) unknown =
        Ensures-then_run Searched Resolved s (resolve_first request names s) or_not_found
          (first_lem request names (All-requests names)) found_or_failed

    loaded_lem :
        (path : String) (r : Result CandidateInput)
        → registered L s.manager (p.file_name path) ≡ false
        → IsSafe
            (then_run (of_result r s) (take_candidate debug L p request path (p.file_name path)))
    loaded_lem path (ok candidate) unknown = take_lem path candidate unknown
    loaded_lem path (err e) unknown = refl

    candidate_lem :
        (bytes : Option (List ℕ)) (path : String)
        → registered L s.manager (p.file_name path) ≡ false
        → IsSafe (resolve_candidate_path debug L p request visible bytes path s)
    unfolding resolve_candidate_path
    candidate_lem bytes path unknown =
        Ensures-then_run Searched Resolved s
          (resolve_existing_by_path debug L p visible path (p.file_name path) s)
          (or_continue (λ s'.
            then_run (of_result (load_candidate p path bytes) s')
              (take_candidate debug L p request path (p.file_name path))))
          (by_path_lem debug L laws start p visible s ready shows path (p.file_name path))
          (continue_lem _ (loaded_lem path (load_candidate p path bytes) unknown))

    All-joined :
        (bytes : Option (List ℕ)) (lib_name : String) (dirs : List String)
        → str_contains lib_name "/" ≡ false
        → registered L s.manager (p.file_name lib_name) ≡ false
        → All
            (λ c. IsSafe (resolve_candidate_path debug L p request visible bytes c s))
            (map (λ dir. p.join dir lib_name) dirs)
    All-joined bytes lib_name [] plain unknown = tt
    All-joined bytes lib_name (dir ∷ dirs) plain unknown = (
      candidate_lem bytes (p.join dir lib_name) (
          subst (λ (k : String). registered L s.manager k ≡ false)
            (sym (path_laws.join_name dir lib_name plain)) unknown),
      All-joined bytes lib_name dirs plain unknown,
    )

    All-cached :
        (bytes : Option (List ℕ)) (lib_name : String) (cached : Option String)
        → cached_path p lib_name ≡ done cached
        → registered L s.manager (p.file_name lib_name) ≡ false
        → All
            (λ c. IsSafe (resolve_candidate_path debug L p request visible bytes c s))
            (to_list cached)
    All-cached bytes lib_name none e unknown = tt
    All-cached bytes lib_name (some path) e unknown = (
      candidate_lem bytes path (
          subst (λ (k : String). registered L s.manager k ≡ false)
            (sym (path_laws.cached_name lib_name path e)) unknown),
      tt,
    )

    plain_lem :
        (rpath runpath : List String) (bytes : Option (List ℕ)) (lib_name : String)
        → str_contains lib_name "/" ≡ false
        → registered L s.manager (p.file_name lib_name) ≡ false
        → IsSafe (resolve_plain_name debug L p request visible rpath runpath lib_name bytes s)
    unfolding search_order
    plain_lem rpath runpath bytes lib_name plain unknown =
        let (cached, e) = path_laws.cache_reads lib_name in
        let f = resolve_candidate_path debug L p request visible bytes in
        let P : String → Type 0 =
          λ c. IsSafe (resolve_candidate_path debug L p request visible bytes c s) in
        let dirs : List String =
          (elim runpath [ [] ↦ rpath | d ∷ ds ↦ [] ]) ++ ld_library_path p ++ runpath in
        let here : List String = map (λ dir. p.join dir lib_name) dirs in
        let defaults : List String = map (λ dir. p.join dir lib_name) default_path in
        subst IsSafe
          (sym (plain_name_lem debug L p visible rpath runpath bytes lib_name cached e request s))
          (Ensures-then_run Searched Resolved s
            (resolve_first f (search_order p rpath runpath cached lib_name) s) or_not_found
            (first_lem f (search_order p rpath runpath cached lib_name) (
              All-append P (here ++ to_list cached) defaults
                (All-append P here (to_list cached) (All-joined bytes lib_name dirs plain unknown)
                  (All-cached bytes lib_name cached e unknown))
                (All-joined bytes lib_name default_path plain unknown)))
            found_or_failed)

  -- Let an operation hold the lock on a consistent registry that no other thread changes, with the
  -- names registered since it began those that it reserved. Let every registered library be visible
  -- to the request, let a directory joined with a plain name have that name as its file name, and
  -- let lookups in the library cache not panic and lead from a name only to a file of that name.
  -- Then a request does not panic. If it fails, the operation's state is as before. If it answers with a file to load, the file's name has been reserved; if with a library
  -- that exists, it is registered or the linker sees it. The registry stays consistent, and the
  -- names registered since the operation began are those that it reserved.
  pub resolve_request_lem :
      (fuel : ℕ) (rpath runpath : List String) (bytes : Option (List ℕ)) (lib_name : String)
      → Ensures
          (Existing.Resolved debug L laws start p visible s ready shows)
          s
          (resolve_request debug L p fuel visible rpath runpath bytes lib_name s)
  unfolding resolve_request
  resolve_request_lem zero rpath runpath bytes lib_name = tt
  resolve_request_lem (suc fuel) rpath runpath bytes lib_name =
      let request = resolve_request debug L p fuel visible rpath runpath none in
      let safe : (name : String)
          → IsSafe (resolve_request debug L p fuel visible rpath runpath none name s) =
        λ name. resolve_request_lem fuel rpath runpath none name in
      Ensures-then_run
        (Existing.Named debug L laws start p visible s ready shows (p.file_name lib_name)) Resolved
        s (resolve_existing_by_name visible (p.file_name lib_name) s)
        (or_continue (
          if str_contains lib_name "/"
          then resolve_candidate_path debug L p request visible bytes lib_name
          else resolve_plain_name debug L p request visible rpath runpath lib_name bytes))
        (by_name_lem debug L laws start p visible s ready shows (p.file_name lib_name))
        (named_lem _ (p.file_name lib_name) (λ unknown.
          elim (Bool-cases (str_contains lib_name "/")) [
            | inl slash ↦ rw slash (candidate_lem request safe bytes lib_name unknown)
            | inr plain ↦
                rw plain (plain_lem request safe rpath runpath bytes lib_name plain unknown)
          ]))
