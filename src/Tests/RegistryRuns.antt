-- ===== src/Tests/RegistryRuns.antt =====
-- The theorems on the registry at concrete registries, with the link context of `Table`.
use rust_dlopen.Registry.Consistent.{libnames}
use rust_dlopen.Common.{All, ℕ}
use rust_dlopen.Common.{
  ◌+◌, String, ◌≡◌, refl, ◌∙◌, ◌⊎◌, true, false, ◌||◌, ◌&&◌, not, none, some, List, [], ◌∷◌,
  is_some, or_else, map, arith, if◌then◌else◌,
}
use rust_dlopen.Common.Assoc
use rust_dlopen.Common.Eq.{str_eq, string_eq}
use rust_dlopen.Common.Maybe.{elem}
use rust_dlopen.Common.Outcome.{done, panic}
use rust_dlopen.Flags.{is_global, rtld_global, rtld_nodelete, join, contains, promotable}
use rust_dlopen.Names.{shortname_from_name, normalized_flags, str_contains}
use rust_dlopen.Registry.Types.{LoadedDylib, ElfLibrary, shortname}
use rust_dlopen.Registry.LinkContext.{Entry, find}
use rust_dlopen.Registry.State.{Manager}
use rust_dlopen.Registry.Update.{add_aliases, remove, promote}
use rust_dlopen.Registry.Loading.{
  keys_of, merged_meta, register_loaded, reserve_pending, merge_module, merge_link_context,
  all_merged,
}
use rust_dlopen.Registry.Unload.{drop_library}
use rust_dlopen.Registry.Consistent.{IsSound, IsConsistent, SameLibraries, registered}
use rust_dlopen.Registry.Consistent.Alias.{add_aliases_lem}
use rust_dlopen.Registry.Consistent.Remove.{IsWithout, Forgets, remove_lem}
use rust_dlopen.Registry.Consistent.Promote.{
  repeats_global, IsPromoted, promote_lem, promote_panics,
}
use rust_dlopen.Registry.Consistent.Publish.{register_loaded_lem, reserve_pending_lem}
use rust_dlopen.Registry.Consistent.Merge.{merge_module_lem, Resolves, merge_link_context_lem}
use rust_dlopen.Registry.Unload.Laws.{IsDeletable, Leaves, drop_library_lem}
use rust_dlopen.Common.Maybe.{find_first, filter_map}
use rust_dlopen.Common.{◌++◌}
use rust_dlopen.Flags.{rtld_deepbind}
use rust_dlopen.Registry.Types.{lookup_shortname}
use rust_dlopen.Registry.LinkContext.{committed}
use rust_dlopen.Registry.Lookup.{
  relocation_scope, global_values, all_values, library_scope, canonical_name_owned, lookup,
  committed_lookup, committed_id, library_scope_by_id,
}
use rust_dlopen.Registry.Update.{add_global}
use rust_dlopen.Registry.Symbols.{covers, global_find, addr2dso}
use rust_dlopen.Registry.Symbols.Laws.{
  IsFresh, relocation_scope_lem, global_find-add_global, IsMappedOver, addr2dso_lem,
}
use rust_dlopen.Registry.Destructors.{
  Destructor, register_atexit, matches, finalize_range, finalize,
}
use rust_dlopen.Registry.Destructors.Laws.{finalize-register_atexit, finalize_once, finalize_all}
use rust_dlopen.Tests.Table.{Table, table, find-lookup, single-IsDistinct, table-LinkContextLaws}

abbrev pub library : String → LoadedDylib
library path = record {
  name = path;
  base = 4096;
  mapped_len = 100;
  needed_libs = [];
  file_identity = none;
  get = λ symbol. if str_eq symbol "open" then some 4100 else none;
}

abbrev pub liba : LoadedDylib
liba = library "/lib/liba.so"

abbrev libb : LoadedDylib
libb = library "/lib/libb.so"

abbrev pub entry : Entry
entry = record { module_ = liba; meta = record { flags = rtld_global; libnames = [] } }

-- A registry with one global library.
abbrev pub held : Manager table
held = record {
  pending = [];
  global = ("liba.so", liba) ∷ [];
  aliases = [];
  identities = [];
  link_ctx = (("liba.so", entry) ∷ [], single-IsDistinct "liba.so" entry);
  adds = 1;
  subs = 0;
}

held_found : find table held.link_ctx "liba.so" ≡ some entry
held_found = find-lookup held.link_ctx "liba.so" ∙ (unfold Assoc.lookup in refl)

held_matches :
    (k : String) → is_some (Assoc.lookup k held.global) ≡ is_some (Assoc.lookup k held.link_ctx.0)
unfolding Assoc.lookup
held_matches k = ground arith

global_flag : is_global rtld_global ≡ true
unfolding is_global
global_flag = refl

adds_nodelete : repeats_global rtld_global rtld_nodelete ≡ false
unfolding is_global contains promotable
adds_nodelete = refl

global_again : repeats_global rtld_global (join rtld_global rtld_nodelete) ≡ true
unfolding is_global contains promotable join
global_again = refl

pub held-IsConsistent : IsConsistent table held
unfolding Assoc.lookup
held-IsConsistent = record {
  sound = record {
    pending_distinct = tt;
    global_distinct = (refl, tt);
    aliases_distinct = tt;
    identities_distinct = tt;
    disjoint = λ k h. absurd (cc);
    alias_registered = λ a c h. absurd (cc);
    alias_listed = λ a c h. absurd (cc);
    identity_registered = λ i k h. absurd (cc);
    counted = refl;
  };
  global_matches = λ k. rw (find-lookup held.link_ctx k) (ground (arith, global_flag));
}

pub held_registered : registered table held "liba.so" ≡ true
held_registered = rw held_found (unfold Assoc.lookup in refl)

held_new : registered table held "libb.so" ≡ false
held_new = rw (find-lookup held.link_ctx "libb.so") (unfold Assoc.lookup in refl)

remove_lem_example :
    (m' : Manager table) × (remove true table "liba.so" held ≡ done m')
    × IsConsistent table m'
    × IsWithout table table-LinkContextLaws "liba.so" held m'
    × Forgets table table-LinkContextLaws "liba.so" held m'
    × (m'.subs ≡ 0 + 1)
    × (m'.adds ≡ 1)
remove_lem_example =
    remove_lem table table-LinkContextLaws "liba.so" true held held-IsConsistent held_registered

promote_lem_example :
    (m' : Manager table) × (promote true table "liba.so" rtld_nodelete held ≡ done m')
    × IsConsistent table m'
    × IsPromoted table table-LinkContextLaws true "liba.so" rtld_nodelete held held-IsConsistent
        entry held_found m'
promote_lem_example =
    promote_lem table table-LinkContextLaws true "liba.so" rtld_nodelete held held-IsConsistent
      entry held_found adds_nodelete

promote_panics_example : promote true table "liba.so" (join rtld_global rtld_nodelete) held ≡ panic
promote_panics_example =
    promote_panics table table-LinkContextLaws true "liba.so" (join rtld_global rtld_nodelete) held
      held-IsConsistent entry held_found refl global_again

main_or_named : (is_global rtld_global || not (str_eq libb.name "")) ≡ true
main_or_named = rw global_flag

short_b : shortname libb ≡ "libb.so"
unfolding shortname shortname_from_name
short_b = refl

short_a : shortname liba ≡ "liba.so"
unfolding shortname shortname_from_name
short_a = refl

register_loaded_lem_example :
    (m' : Manager table) × (register_loaded true table libb rtld_global held ≡ done m')
    × IsConsistent table m'
    × ((k : String)
        → is_some (find table m'.link_ctx k)
          ≡ (str_eq (shortname libb) k || is_some (find table held.link_ctx k)))
register_loaded_lem_example =
    register_loaded_lem true table table-LinkContextLaws libb rtld_global held held-IsConsistent
      (rw short_b held_new) main_or_named

reserve_pending_lem_example :
    (m' : Manager table) × (reserve_pending true table "libc.so.6" "/lib/libc.so.6" none rtld_global
        held
      ≡ done m')
    × IsConsistent table m'
    × ((k : String) → registered table m' k ≡ (str_eq "libc.so.6" k || registered table held k))
    × ((k : String) → is_some (find table m'.link_ctx k) ≡ is_some (find table held.link_ctx k))
reserve_pending_lem_example =
    reserve_pending_lem true table table-LinkContextLaws "libc.so.6" "/lib/libc.so.6" none
      rtld_global held held-IsConsistent
      (rw (find-lookup held.link_ctx "libc.so.6") (unfold Assoc.lookup in refl))

add_aliases_lem_example :
    (m' : Manager table) × (add_aliases true table "liba.so" ("a" ∷ "liba.so" ∷ "a" ∷ []) held
      ≡ done m')
    × IsSound table m'
    × SameLibraries table held m'
    × ((a : String)
        → Assoc.lookup a m'.aliases ≡ (elim (Assoc.lookup a held.aliases) [
          | some c ↦ some c
          | none ↦
              if elem a ("a" ∷ "liba.so" ∷ "a" ∷ []) && not (registered table held a)
              then some "liba.so"
              else none
        ]))
    × ((a : String)
        → Assoc.lookup a m'.aliases ≡ some "liba.so"
        → elem a (libnames table m' "liba.so") ≡ true)
add_aliases_lem_example =
    add_aliases_lem table table-LinkContextLaws true "liba.so" ("a" ∷ "liba.so" ∷ "a" ∷ []) held
      held-IsConsistent.sound held_registered

nothing_new : find table held.link_ctx "libb.so" ≡ none
nothing_new = find-lookup held.link_ctx "libb.so" ∙ (unfold Assoc.lookup in refl)

abbrev source : Table
source = (
  ("libb.so", record { module_ = libb; meta = record { flags = 0; libnames = [] } }) ∷ [],
  single-IsDistinct "libb.so"
      (record { module_ = libb; meta = record { flags = 0; libnames = [] } }),
)

source-Resolves : Resolves true table table-LinkContextLaws source "libb.so"
unfolding Assoc.lookup keys_of
source-Resolves = record {
  key = "libb.so";
  module_ = libb;
  deps = [];
  has_key = refl;
  has_module = refl;
  has_deps = refl;
}

merge_link_context_lem_example :
    (m' : Manager table) × (merge_link_context true table source ("libb.so" ∷ []) rtld_global held
      ≡ done m')
    × IsConsistent table m'
    × (all_merged true table source ("libb.so" ∷ []) m' ≡ true)
    × ((k : String) → (registered table held k && not (registered table m' k)) ≡ false)
    × ((k : String)
        → (is_some (find table held.link_ctx k) && not (is_some (find table m'.link_ctx k)))
          ≡ false)
merge_link_context_lem_example =
    merge_link_context_lem true table table-LinkContextLaws source rtld_global held
      (source-Resolves, tt) held-IsConsistent

merge_module_lem_example :
    (m' : Manager table) × (merge_module true table "libb.so" libb [] rtld_global held ≡ done m')
    × IsConsistent table m'
    × ((k : String)
        → is_some (find table m'.link_ctx k)
          ≡ (str_eq "libb.so" k || is_some (find table held.link_ctx k)))
    × ((k : String) → registered table m' k ≡ (str_eq "libb.so" k || registered table held k))
    × (is_some (Assoc.lookup "libb.so" m'.global) ≡ is_global rtld_global)
unfolding Assoc.lookup merged_meta normalized_flags str_contains
merge_module_lem_example =
    merge_module_lem true table table-LinkContextLaws "libb.so" libb [] rtld_global held
      held-IsConsistent nothing_new

abbrev handle : ElfLibrary
handle = record { inner = liba; deps = some (liba ∷ libb ∷ []) }

no_alias_a : Assoc.lookup (shortname liba) held.aliases ≡ none
unfolding Assoc.lookup
no_alias_a = refl

no_alias_b : Assoc.lookup (shortname libb) held.aliases ≡ none
unfolding Assoc.lookup
no_alias_b = refl

-- Four references to the library itself: three of the registry and its scope, and the handle's.
abbrev four_then_three : List LoadedDylib → LoadedDylib → ℕ
four_then_three [] lib = 4
four_then_three (x ∷ xs) lib = 3

drop_library_lem_example :
    (gone : List LoadedDylib) × (m' : Manager table) × (drop_library true table four_then_three
        handle held
      ≡ done (gone, m'))
    × Leaves table table-LinkContextLaws true four_then_three [] held m' gone
    × (IsDeletable table table-LinkContextLaws true four_then_three held [] liba
          × ((rest : List LoadedDylib) × (gone ≡ liba ∷ rest))
        ⊎ (IsDeletable table table-LinkContextLaws true four_then_three held [] liba → ⊥)
          × (gone ≡ []))
drop_library_lem_example =
    drop_library_lem table table-LinkContextLaws true four_then_three handle (liba ∷ libb ∷ []) held
      refl held-IsConsistent no_alias_a (no_alias_b, tt)

relocation_scope_lem_example :
    IsFresh [] (relocation_scope table held (libb ∷ liba ∷ []) rtld_deepbind)
    × ((k : String)
        → elem k (map shortname (relocation_scope table held (libb ∷ liba ∷ []) rtld_deepbind)) ≡ (
            elem k (map shortname (libb ∷ liba ∷ []))
            || elem k (map shortname (global_values table held))))
relocation_scope_lem_example = relocation_scope_lem table held (libb ∷ liba ∷ []) rtld_deepbind

global_find-add_global_example :
    (m' : Manager table) × (add_global true table "libb.so" libb held ≡ done m')
    × (global_find table m' "open" ≡ or_else (global_find table held "open") (some 4100))
global_find-add_global_example =
    global_find-add_global table true held "libb.so" "open" libb (unfold Assoc.lookup in refl)

pub found_a : addr2dso table held 4100 ≡ some (record { inner = liba; deps = some (liba ∷ []) })
unfolding addr2dso find_first covers all_values filter_map library_scope canonical_name_owned lookup
    committed_lookup committed_id committed Assoc.lookup shortname shortname_from_name
    library_scope_by_id lookup_shortname
found_a = refl

addr2dso_lem_example :
    (before after : List LoadedDylib) × (all_values table held ≡ before ++ liba ∷ after)
    × IsMappedOver 4100 liba
    × All (λ other. IsMappedOver 4100 other → ⊥) before
    × (library_scope table held (shortname liba) ≡ some (liba ∷ []))
addr2dso_lem_example =
    addr2dso_lem table held 4100 (record { inner = liba; deps = some (liba ∷ []) }) found_a

abbrev first_exit : Destructor
first_exit = record { dso_handle = 4100; func = 1; arg = 0 }

abbrev second_exit : Destructor
second_exit = record { dso_handle = 4104; func = 2; arg = 0 }

finalize-register_atexit_example :
    finalize table held 4100 none (register_atexit second_exit (first_exit ∷ [])) ≡ (
      let (to_run, rest) = finalize table held 4100 none (first_exit ∷ []) in
      if matches 4100 (finalize_range table held 4100 none) second_exit
      then (second_exit ∷ to_run, rest)
      else (to_run, rest ++ second_exit ∷ []))
finalize-register_atexit_example =
    finalize-register_atexit table held 4100 none second_exit (first_exit ∷ [])

finalize_once_example :
    finalize table held 4100 none (finalize table held 4100 none (first_exit ∷ second_exit ∷ [])).1
    ≡ ([], (finalize table held 4100 none (first_exit ∷ second_exit ∷ [])).1)
finalize_once_example = finalize_once table held 4100 none (first_exit ∷ second_exit ∷ [])

finalize_all_example :
    finalize table held 0 none (first_exit ∷ second_exit ∷ []) ≡ (second_exit ∷ first_exit ∷ [], [])
finalize_all_example = finalize_all table held none (first_exit ∷ second_exit ∷ [])
