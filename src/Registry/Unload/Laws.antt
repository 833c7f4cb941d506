-- ===== src/Registry/Unload/Laws.antt =====
-- `Drop for ElfLibrary` of src/core_impl/register.rs: which libraries it may remove.
use rust_dlopen.Common.{
  ℕ, String, ◌≡◌, refl, sym, subst, ◌∙◌, ◌⊎◌, Bool, true, false, ◌||◌, ◌&&◌, not, Option, none,
  some, List, [], ◌∷◌, ◌++◌, map, arith, or_else, drop, All, Option-cases, Bool-cases, inl, inr,
  ◌==◌, ==_iff,
}
use mathlib.Core.Option
use rust_dlopen.Common.{if◌then◌else◌}
use mathlib.Core.List.{append-nil, append_assoc}
use rust_dlopen.Common.Assoc
use rust_dlopen.Common.Eq.{str_eq_iff, string_eq}
use rust_dlopen.Common.Maybe.{elem}
use rust_dlopen.Common.Outcome.{done}
use rust_dlopen.Flags.{OpenFlags, is_global, is_nodelete}
use rust_dlopen.Registry.Types.{LoadedDylib, ElfLibrary, shortname}
use rust_dlopen.Registry.LinkContext.{
  LinkContext, LinkContextLaws, Entry, committed, entry_at, find,
}
use rust_dlopen.Registry.State.{Manager}
use rust_dlopen.Registry.Lookup.{flags, committed_flags}
use rust_dlopen.Registry.Consistent.{IsConsistent, registered, find_of_committed}
use rust_dlopen.Registry.Consistent.Insert.{no_assert}
use rust_dlopen.Registry.Consistent.Remove.{IsWithout, remove_lem}
use rust_dlopen.Registry.Update.{remove}
use rust_dlopen.Registry.Unload.{threshold, is_unused, drop_dep, drop_deps, drop_library}

abbrev pub entry_flags : Option Entry → Option OpenFlags
entry_flags none = none
entry_flags (some e) = some e.meta.flags

module _ (L : LinkContext) (laws : LinkContextLaws L) where
  -- The flags of what is registered under a canonical name.
  abbrev pub held_flags : Manager L → String → Option OpenFlags
  held_flags m k =
      or_else (entry_flags (find L m.link_ctx k))
        (Option.map (λ p. p.flags) (Assoc.lookup k m.pending))

  committed_flags-find :
      (m : Manager L) (k : String) → committed_flags L m k ≡ entry_flags (find L m.link_ctx k)
  unfolding committed_flags find
  committed_flags-find m k = elim (Option-cases (committed L m.link_ctx k)) [
    | inl e ↦ rw (e, find)
    | inr (id, e) ↦
        let (x, at, found) = find_of_committed L laws m.link_ctx k id e in
        rw (e, find, at) (unfold entry_at in ground (arith, at))
  ]

  -- For a name that is no alias the registry answers with the flags held under it.
  flags-held :
      (m : Manager L) (k : String) → Assoc.lookup k m.aliases ≡ none → flags L m k ≡ held_flags m k
  unfolding flags
  flags-held m k h = ground (arith, committed_flags-find m k)

  held_of_registered :
      (m : Manager L) (k : String) (f : OpenFlags)
      → held_flags m k ≡ some f
      → registered L m k ≡ true
  held_of_registered m k f h = ground arith

  module _ (debug : Bool) (strong_count : List LoadedDylib → LoadedDylib → ℕ) where
    -- A library that the registry may let go after others: it is held with flags that allow it, and
    -- has three references, for the link context, one list of dependencies and one more of the
    -- handle, and a fourth for the global scope if its flags say RTLD_GLOBAL.
    pub record IsDeletable (m : Manager L) (others : List LoadedDylib) (lib : LoadedDylib)
        : Type 0 where
      pub held : OpenFlags
      pub held_at : held_flags m (shortname lib) ≡ some held
      pub may_delete : is_nodelete held ≡ false
      pub unshared : strong_count others lib ≡ (if is_global held then 4 else 3)

    -- Each library of a list may go after those in front of it.
    abbrev pub AllDeletable : Manager L → List LoadedDylib → List LoadedDylib → Type 0
    AllDeletable m others [] = Unit {0}
    AllDeletable m others (lib ∷ libs) =
        IsDeletable m others lib × AllDeletable m (others ++ lib ∷ []) libs

    threshold_lem : (f : OpenFlags) → threshold f ≡ (if is_global f then 4 else 3)
    unfolding threshold
    threshold_lem f = ground arith

    abbrev shortnames : List LoadedDylib → List String
    shortnames libs = map shortname libs

    abbrev NoAlias : Manager L → LoadedDylib → Type 0
    NoAlias m lib = Assoc.lookup (shortname lib) m.aliases ≡ none

    -- What a series of removals leaves: `gone` is what it added to the list `others` of removed
    -- libraries.
    pub record Leaves (others : List LoadedDylib) (m m' : Manager L) (gone : List LoadedDylib)
        : Type 0 where
      pub consistent : IsConsistent L m'
      pub left :
          (k : String) → registered L m' k ≡ (registered L m k && not (elem k (map shortname gone)))
      pub deletable : AllDeletable m others gone
      pub held_left :
          (k : String) (f : OpenFlags) → held_flags m' k ≡ some f → held_flags m k ≡ some f
      pub no_alias :
          (a : String) → Assoc.lookup a m.aliases ≡ none → Assoc.lookup a m'.aliases ≡ none

    Leaves-none :
        (others : List LoadedDylib) (m : Manager L) → IsConsistent L m → Leaves others m m []
    unfolding elem
    Leaves-none others m c = record {
      consistent = c;
      left = λ k. ground arith;
      deletable = tt;
      held_left = λ k f h. h;
      no_alias = λ a h. h;
    }

    Leaves-one :
        (others : List LoadedDylib) (m m' : Manager L) (lib : LoadedDylib)
        → IsConsistent L m'
        → IsWithout L laws (shortname lib) m m'
        → IsDeletable m others lib
        → Leaves others m m' (lib ∷ [])
    unfolding elem
    Leaves-one others m m' lib c' w d = record {
      consistent = c';
      left = λ k. ground (
        arith,
        w.find_without k,
        w.pending_without k,
        str_eq_iff (shortname lib) k,
        str_eq_iff k (shortname lib),
      );
      deletable = (d, tt);
      held_left = λ k f h. ground (arith, w.find_without k, w.pending_without k);
      no_alias = w.aliases_without;
    }

    elem-append_names :
        (k : String) (xs ys : List LoadedDylib)
        → elem k (map shortname (xs ++ ys))
          ≡ (elem k (map shortname xs) || elem k (map shortname ys))
    unfolding elem
    elem-append_names k [] ys = refl
    elem-append_names k (x ∷ xs) ys = ground (arith, elem-append_names k xs ys)

    AllDeletable-back :
        (m m' : Manager L) (others gone : List LoadedDylib)
        → ((k : String) (f : OpenFlags) → held_flags m' k ≡ some f → held_flags m k ≡ some f)
        → AllDeletable m' others gone
        → AllDeletable m others gone
    AllDeletable-back m m' others [] back h = tt
    AllDeletable-back m m' others (lib ∷ gone) back (d, h) = (
      record {
        held = d.held;
        held_at = back (shortname lib) d.held d.held_at;
        may_delete = d.may_delete;
        unshared = d.unshared;
      },
      AllDeletable-back m m' (others ++ lib ∷ []) gone back h,
    )

    AllDeletable-append :
        (m : Manager L) (others xs ys : List LoadedDylib)
        → AllDeletable m others xs
        → AllDeletable m (others ++ xs) ys
        → AllDeletable m others (xs ++ ys)
    AllDeletable-append m others [] ys h k = rw append-nil at k
    AllDeletable-append m others (x ∷ xs) ys (d, h) k = (
      d,
      AllDeletable-append m (others ++ x ∷ []) xs ys h
          (subst (λ o. AllDeletable m o ys) (sym (append_assoc others (x ∷ []) xs)) k),
    )

    Leaves-trans :
        {a b c : Manager L} (others xs ys : List LoadedDylib)
        → Leaves others a b xs
        → Leaves (others ++ xs) b c ys
        → Leaves others a c (xs ++ ys)
    Leaves-trans {a} {b} others xs ys p q = record {
      consistent = q.consistent;
      left = λ k. ground (arith, p.left k, q.left k, elem-append_names k xs ys);
      deletable =
          AllDeletable-append a others xs ys p.deletable
            (AllDeletable-back a b (others ++ xs) ys p.held_left q.deletable);
      held_left = λ k f h. p.held_left k f (q.held_left k f h);
      no_alias = λ n h. q.no_alias n (p.no_alias n h);
    }

    is_unused-IsDeletable :
        (others : List LoadedDylib) (lib : LoadedDylib) (m : Manager L)
        → NoAlias m lib
        → is_unused debug L strong_count others lib m ≡ true
        → IsDeletable m others lib
    unfolding is_unused
    is_unused-IsDeletable others lib m h used = elim (Option-cases (held_flags m (shortname lib))) [
      | inl e ↦ absurd (ground (arith, flags-held m (shortname lib) h))
      | inr (f, e) ↦ record {
        held = f;
        held_at = e;
        may_delete = ground (arith, flags-held m (shortname lib) h);
        unshared = ground (arith, flags-held m (shortname lib) h, threshold_lem f);
      }
    ]

    drop_dep_lem :
        (dep : LoadedDylib) (removed_libs : List LoadedDylib) (m : Manager L)
        → IsConsistent L m
        → NoAlias m dep
        → (gone : List LoadedDylib) × (m' : Manager L) × (drop_dep debug L strong_count dep
              (removed_libs, m)
            ≡ done (removed_libs ++ gone, m'))
          × Leaves removed_libs m m' gone
    unfolding drop_dep
    drop_dep_lem dep removed_libs m c h =
        elim (Bool-cases (is_unused debug L strong_count removed_libs dep m)) [
          | inr no_ ↦ ([], m, rw (no_, append-nil), Leaves-none removed_libs m c)
          | inl yes_ ↦
              let d = is_unused-IsDeletable removed_libs dep m h yes_ in
              let (m', e, c', w, _, _, _) =
                remove_lem L laws (shortname dep) debug m c
                  (held_of_registered m (shortname dep) d.held d.held_at) in
              (dep ∷ [], m', rw (yes_, e), Leaves-one removed_libs m m' dep c' w d)
        ]

    still :
        (others : List LoadedDylib) (m m' : Manager L) (gone : List LoadedDylib)
        → Leaves others m m' gone
        → (deps : List LoadedDylib) → All (NoAlias m) deps
        → All (NoAlias m') deps
    still others m m' gone l [] h = tt
    still others m m' gone l (d ∷ ds) h =
        (l.no_alias (shortname d) h.0, still others m m' gone l ds h.1)

    drop_deps_lem :
        (deps removed_libs : List LoadedDylib) (m : Manager L)
        → IsConsistent L m
        → All (NoAlias m) deps
        → (gone : List LoadedDylib) × (m' : Manager L) × (drop_deps debug L strong_count deps
              (removed_libs, m)
            ≡ done (removed_libs ++ gone, m'))
          × Leaves removed_libs m m' gone
    unfolding drop_deps
    drop_deps_lem [] removed_libs m c h = ([], m, rw append-nil, Leaves-none removed_libs m c)
    drop_deps_lem (dep ∷ deps) removed_libs m c h =
        let (gone₁, m₁, e₁, l₁) = drop_dep_lem dep removed_libs m c h.0 in
        let (gone₂, m₂, e₂, l₂) =
          drop_deps_lem deps (removed_libs ++ gone₁) m₁ l₁.consistent
            (still removed_libs m m₁ gone₁ l₁ deps h.1) in
        (
          gone₁ ++ gone₂,
          m₂,
          rw e₁ (rw append_assoc at e₂),
          Leaves-trans removed_libs gone₁ gone₂ l₁ l₂,
        )

    module _ (lib : ElfLibrary) (deps : List LoadedDylib) (m : Manager L)
        (has_deps : lib.deps ≡ some deps) (c : IsConsistent L m) (h : NoAlias m lib.inner) where
      drop_kept :
          (IsDeletable m [] lib.inner → ⊥) → drop_library debug L strong_count lib m ≡ done ([], m)
      unfolding drop_library
      drop_kept not_deletable = elim (Option-cases (held_flags m (shortname lib.inner))) [
        | inl e ↦ rw (drop_library, flags-held m (shortname lib.inner) h, e)
        | inr (f, e) ↦ elim (Bool-cases (is_nodelete f)) [
          | inl n ↦ rw (drop_library, flags-held m (shortname lib.inner) h, e, n)
          | inr n ↦ elim (Bool-cases (strong_count [] lib.inner == threshold f)) [
            | inl s ↦ absurd (
                not_deletable (record {
                  held = f;
                  held_at = e;
                  may_delete = n;
                  unshared = (==_iff _ _).0 s ∙ threshold_lem f;
                }))
            | inr s ↦ rw (
              drop_library,
              flags-held m (shortname lib.inner) h,
              e,
              n,
              has_deps,
              no_assert debug,
              s,
            )
          ]
        ]
      ]

      drop_unused :
          (d : IsDeletable m [] lib.inner) (m₁ : Manager L)
          → remove debug L (shortname lib.inner) m ≡ done m₁
          → drop_library debug L strong_count lib m
            ≡ drop_deps debug L strong_count (drop 1 deps) (lib.inner ∷ [], m₁)
      unfolding drop_library
      drop_unused d m₁ e =
          let counted : (strong_count [] lib.inner == threshold d.held) ≡ true =
            (==_iff _ _).1 (d.unshared ∙ sym (threshold_lem d.held)) in
          rw
            (
              drop_library,
              flags-held m (shortname lib.inner) h,
              d.held_at,
              d.may_delete,
              has_deps,
              no_assert debug,
              counted,
            )
            (rw e)

    dec-IsDeletable :
        (lib : LoadedDylib) (m : Manager L) → IsDeletable m [] lib ⊎ (IsDeletable m [] lib → ⊥)
    dec-IsDeletable lib m = elim (Option-cases (held_flags m (shortname lib))) [
      | inl e ↦ inr (λ d. cc (e, d.held_at))
      | inr (f, e) ↦ elim (Bool-cases (is_nodelete f)) [
        | inl n ↦ inr (λ d. ground (arith, e, n, d.held_at, d.may_delete))
        | inr n ↦ elim (Bool-cases (strong_count [] lib == threshold f)) [
          | inl s ↦ inl (record {
            held = f;
            held_at = e;
            may_delete = n;
            unshared = (==_iff _ _).0 s ∙ threshold_lem f;
          })
          | inr s ↦ inr (λ d. ground (arith, e, s, d.held_at, d.unshared, threshold_lem f))
        ]
      ]
    ]

    -- Dropping a handle that has its dependencies, in a consistent registry where no library in
    -- its scope goes by a name that is an alias, does not panic and keeps the registry consistent.
    -- What is unregistered is exactly what the code reports as removed; each removed library was
    -- held with flags that allow deletion, and had three references, or four with RTLD_GLOBAL, when
    -- they were counted, after those in front of it had been removed; the handle's own library is
    -- the first to be removed if that is so of it, and otherwise nothing is.
    pub drop_library_lem :
        (lib : ElfLibrary) (deps : List LoadedDylib) (m : Manager L)
        → lib.deps ≡ some deps
        → IsConsistent L m
        → Assoc.lookup (shortname lib.inner) m.aliases ≡ none
        → All (λ (dep : LoadedDylib). Assoc.lookup (shortname dep) m.aliases ≡ none) (drop 1 deps)
        → (gone : List LoadedDylib) × (m' : Manager L) × (drop_library debug L strong_count lib m
            ≡ done (gone, m'))
          × Leaves [] m m' gone
          × (IsDeletable m [] lib.inner × ((rest : List LoadedDylib) × (gone ≡ lib.inner ∷ rest))
              ⊎ (IsDeletable m [] lib.inner → ⊥) × (gone ≡ []))
    drop_library_lem lib deps m has_deps c h hs = elim (dec-IsDeletable lib.inner m) [
      | inr kept ↦
          ([], m, drop_kept lib deps m has_deps c h kept, Leaves-none [] m c, inr (kept, refl))
      | inl d ↦
          let (m₁, e, c₁, w, _, _, _) =
            remove_lem L laws (shortname lib.inner) debug m c
              (held_of_registered m (shortname lib.inner) d.held d.held_at) in
          let l₁ = Leaves-one [] m m₁ lib.inner c₁ w d in
          let (gone, m₂, e₂, l₂) =
            drop_deps_lem (drop 1 deps) (lib.inner ∷ []) m₁ c₁
              (still [] m m₁ (lib.inner ∷ []) l₁ (drop 1 deps) hs) in
          (
            lib.inner ∷ gone,
            m₂,
            drop_unused lib deps m has_deps c h d m₁ e ∙ e₂,
            Leaves-trans [] (lib.inner ∷ []) gone l₁ l₂,
            inl (d, (gone, refl)),
          )
    ]
