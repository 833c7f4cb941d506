-- ===== src/Registry/Update.antt =====
-- The writes of `Manager` in src/core_impl/register.rs. `debug` says whether debug assertions are
-- compiled in; an `expect` that fails, a `panic!` and a failed assertion are `panic`.
use rust_dlopen.Common.{
  ◌+◌, String, Bool, true, false, ◌||◌, not, Option, none, some, List, [], ◌∷◌, ◌++◌, is_some,
  if◌then◌else◌,
}
use rust_dlopen.Common.Assoc
use rust_dlopen.Common.Eq.{str_eq, string_eq}
use rust_dlopen.Common.Outcome.{Outcome, done, panic, ◌>>=◌, ◌>>◌, expect, debug_assert}
use rust_dlopen.Flags.{OpenFlags, is_global, contains, promotable, join}
use rust_dlopen.Registry.Types.{FileIdentity, LoadedDylib, ElfLibrary, reserved, identity_eq}
use rust_dlopen.Registry.LinkContext.{LinkContext}
use rust_dlopen.Registry.State.{Manager}
use rust_dlopen.Registry.Lookup.{
  committed_id, contains_canonical_key, canonical_name_owned, canonical_direct_deps, get_lib,
}

-- The loop of `remove` over the names of the library.
unfoldable pub remove_aliases : List String → List (String × String) → List (String × String)
remove_aliases [] aliases = aliases
remove_aliases (a ∷ rest) aliases = remove_aliases rest (Assoc.shift_remove a aliases)

abbrev pub both_equal : Bool → Bool → Bool
both_equal true b = b
both_equal false b = not b

module _ (debug : Bool) (L : LinkContext) where
  unfoldable pub add_global : String → LoadedDylib → Manager L → Outcome (Manager L)
  add_global name lib m = do
    debug_assert debug (not (Assoc.contains_key name m.global))
    done (record m { global = Assoc.insert name lib m.global })

  unfoldable pub add_loaded : String → LoadedDylib → OpenFlags → Manager L → Outcome (Manager L)
  unfolding contains_canonical_key
  add_loaded name lib flags m = do
    debug_assert debug (not (contains_canonical_key L m name))
    let direct_deps = canonical_direct_deps L m lib
    ctx ← expect (
        L.insert_with_meta m.link_ctx name lib direct_deps
          (record { flags = flags; libnames = [] }))
    done (record m { link_ctx = ctx; adds = m.adds + 1 })

  unfoldable pub add_pending_reservation : String → OpenFlags → Manager L → Outcome (Manager L)
  unfolding contains_canonical_key reserved
  add_pending_reservation name flags m = do
    debug_assert debug (not (contains_canonical_key L m name))
    let previous = Assoc.lookup name m.pending
    debug_assert debug (not (is_some previous))
    done (record m { pending = Assoc.insert name (reserved flags) m.pending; adds = m.adds + 1 })

  -- The part of `add_alias` that records a new alias with its library.
  unfoldable pub record_alias : String → String → Manager L → Outcome (Manager L)
  record_alias canonical alias m = elim (Assoc.lookup canonical m.pending) [
    | some lib ↦ done (record m {
      pending =
          Assoc.insert canonical (record lib { libnames = lib.libnames ++ alias ∷ [] }) m.pending;
      aliases = Assoc.insert alias canonical m.aliases;
    })
    | none ↦ (do
      id ← expect (L.key_id m.link_ctx canonical)
      meta ← expect (L.meta m.link_ctx id)
      done (record m {
        link_ctx =
            L.set_meta m.link_ctx id (record meta { libnames = meta.libnames ++ alias ∷ [] });
        aliases = Assoc.insert alias canonical m.aliases;
      }))
  ]

  unfoldable pub add_alias : String → String → Manager L → Outcome (Manager L)
  unfolding contains_canonical_key
  add_alias canonical alias m = do
    debug_assert debug (contains_canonical_key L m canonical)
    if contains_canonical_key L m alias || Assoc.contains_key alias m.aliases
        then done m
        else record_alias canonical alias m

  -- `for alias in libc_compat_aliases(&key) { manager.add_alias(&key, alias) }`
  unfoldable pub add_aliases : String → List String → Manager L → Outcome (Manager L)
  add_aliases canonical [] m = done m
  add_aliases canonical (alias ∷ rest) m = do
    m' ← add_alias canonical alias m
    add_aliases canonical rest m'

  unfoldable pub add_identity : FileIdentity → String → Manager L → Manager L
  add_identity identity name m = record m { identities = Assoc.insert identity name m.identities }

  -- The first part of `remove`: where the entry was, its flags and its names.
  unfoldable pub take_entry :
      String → Manager L → Outcome (Bool × OpenFlags × List String × Manager L)
  take_entry shortname m = elim (Assoc.lookup shortname m.pending) [
    | some lib ↦ done (
      false,
      lib.flags,
      lib.libnames,
      record m { pending = Assoc.shift_remove shortname m.pending },
    )
    | none ↦ elim (committed_id L m shortname) [
      | none ↦ panic
      | some id ↦ elim (L.remove m.link_ctx id) [
        | none ↦ panic
        | some (meta, ctx) ↦ done (true, meta.flags, meta.libnames, record m { link_ctx = ctx })
      ]
    ]
  ]

  unfoldable pub remove : String → Manager L → Outcome (Manager L)
  unfolding take_entry remove_aliases
  remove shortname m = do
    (was_committed, flags, libnames, m') ← take_entry shortname m
    let res = Assoc.lookup shortname m'.global
    debug_assert debug (not was_committed || both_equal (is_global flags) (is_some res))
    done (record m' {
      subs = m'.subs + 1;
      global = Assoc.shift_remove shortname m'.global;
      aliases = remove_aliases libnames m'.aliases;
      identities = Assoc.retain (λ v. not (str_eq v shortname)) m'.identities;
    })

  unfoldable pub promote : String → OpenFlags → Manager L → Outcome (Manager L)
  promote shortname flags m = do
    id ← expect (committed_id L m shortname)
    entry ← expect (L.meta m.link_ctx id)
    if contains entry.flags (promotable flags) then done m else do
      let m' = record m {
        link_ctx =
            L.set_meta m.link_ctx id (record entry { flags = join entry.flags (promotable flags) });
      }
      if not (is_global flags)
          then done m'
          else do core ← expect (L.get m'.link_ctx id); add_global shortname core m'

  unfoldable pub promoted_name :
      String → OpenFlags → Manager L → Outcome (Option String × Manager L)
  unfolding promote
  promoted_name name flags m = elim (canonical_name_owned L m name) [
    | none ↦ done (none, m)
    | some canonical ↦ (do m' ← promote canonical flags m; done (some canonical, m'))
  ]

  unfoldable pub open_existing :
      String → OpenFlags → Manager L → Outcome (Option ElfLibrary × Manager L)
  unfolding promoted_name
  open_existing name flags m = do
    (canonical, m') ← promoted_name name flags m
    elim canonical [ none ↦ done (none, m') | some key ↦ done (get_lib L m' key, m') ]
