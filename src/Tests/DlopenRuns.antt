-- ===== src/Tests/DlopenRuns.antt =====
-- The theorems on opening a library at concrete inputs.
use rust_dlopen.Common.{
  String, ◌≡◌, refl, true, false, ◌&&◌, not, Option, some, List, [], ◌∷◌, ◌++◌,
}
use rust_dlopen.Common.Maybe.{elem}
use rust_dlopen.Common.Outcome.{done}
use rust_dlopen.Registry.Types.{LibraryLookup, pending, relocated}
use rust_dlopen.Registry.State.{Manager}
use rust_dlopen.Registry.Consistent.{IsConsistent, registered}
use rust_dlopen.Common.Assoc
use rust_dlopen.Registry.Types.{reserved}
use rust_dlopen.Registry.LinkContext.{committed}
use rust_dlopen.Registry.Lookup
use rust_dlopen.Registry.Lookup.{committed_lookup, committed_id, pending_lookup}
use rust_dlopen.Dlopen.{drop_context}
use rust_dlopen.Dlopen.Operation.{OpenContext, returned, waiting, wait_for_library}
use rust_dlopen.Dlopen.Rollback.{drop_context_lem}
use rust_dlopen.Dlopen.Waiting.{is_busy, wait_for_library-returns, wait_for_library-waits}
use rust_dlopen.Dlopen.Paths.{
  Text, contains_char, braced_origin, parse_path_list, is_empty_text, fixup_rpath,
}
use rust_dlopen.Dlopen.Paths.Laws.{
  is_directory, are_directories, written, parse_path_list_lem, fixup_rpath_braced,
}
use rust_dlopen.Tests.Table.{table, table-LinkContextLaws}
use rust_dlopen.Tests.RegistryRuns.{held, held-IsConsistent, held_registered}

drop_context_lem_example :
    (m' : Manager table) × (drop_context true table false ("liba.so" ∷ []) held ≡ done m')
    × IsConsistent table m'
    × ((k : String)
        → registered table m' k ≡ (registered table held k && not (elem k ("liba.so" ∷ []))))
drop_context_lem_example =
    drop_context_lem table table-LinkContextLaws true ("liba.so" ∷ []) held held-IsConsistent
      (held_registered, (unfold elem in refl), tt)

-- Another operation has reserved the library.
abbrev reserved_elsewhere : Manager table
reserved_elsewhere = record {
  pending = ("liba.so", reserved 0) ∷ [];
  global = [];
  aliases = [];
  identities = [];
  link_ctx = ([], tt);
  adds = 1;
  subs = 0;
}

-- At first nothing happens, then the library is there, and then it is gone again.
abbrev meanwhile : List (Manager table → Manager table)
meanwhile = (λ m. m) ∷ (λ m. held) ∷ (λ m. reserved_elsewhere) ∷ []

abbrev waiting_context : List (Manager table → Manager table) → OpenContext table
waiting_context others = record {
  manager = reserved_elsewhere;
  lock = true;
  flags = 0;
  added_names = "libb.so" ∷ [];
  committed = false;
  others = others;
}

abbrev loaded : Option LibraryLookup
loaded = some (relocated "liba.so" "/lib/liba.so")

held_loaded : Lookup.lookup table held "liba.so" ≡ loaded
unfolding Lookup.lookup committed_lookup committed_id committed Assoc.lookup
held_loaded = refl

elsewhere_pending : Lookup.lookup table reserved_elsewhere "liba.so" ≡ some (pending "liba.so")
unfolding Lookup.lookup committed_lookup committed_id committed pending_lookup Assoc.lookup
elsewhere_pending = refl

elsewhere_busy :
    is_busy true ("libb.so" ∷ []) (Lookup.lookup table reserved_elsewhere "liba.so") ≡ true
elsewhere_busy = rw elsewhere_pending (unfold elem in refl)

held_free : is_busy true ("libb.so" ∷ []) (Lookup.lookup table held "liba.so") ≡ false
held_free = rw held_loaded refl

wait_for_library-returns_example :
    wait_for_library true "liba.so" (waiting_context meanwhile)
    ≡ returned (Lookup.lookup table held "liba.so") (record (waiting_context meanwhile) {
      manager = held;
      others = (λ m. reserved_elsewhere) ∷ [];
    })
wait_for_library-returns_example =
    wait_for_library-returns table true "liba.so" (waiting_context meanwhile)
      ((λ m. m) ∷ (λ m. held) ∷ []) ((λ m. reserved_elsewhere) ∷ []) refl refl
      (elsewhere_busy, (elsewhere_busy, tt)) held_free

wait_for_library-waits_example :
    wait_for_library true "liba.so" (waiting_context ((λ m. m) ∷ [])) ≡ waiting
wait_for_library-waits_example =
    wait_for_library-waits table true "liba.so" (waiting_context ((λ m. m) ∷ [])) refl
      (elsewhere_busy, tt) elsewhere_busy

abbrev two_directories : List Text
two_directories = (b'/' ∷ b'a' ∷ []) ∷ (b'b' ∷ []) ∷ []

two_directories_read : are_directories two_directories ≡ true
unfolding are_directories is_directory is_empty_text contains_char
two_directories_read = refl

parse_path_list_lem_example : parse_path_list (written two_directories) ≡ two_directories
parse_path_list_lem_example = parse_path_list_lem two_directories two_directories_read

abbrev lib_path : Text
lib_path = b'/' ∷ b'l' ∷ b'/' ∷ b'x' ∷ []

abbrev front : Text
front = b'/' ∷ b'a' ∷ b':' ∷ []

abbrev back : Text
back = b'/' ∷ b'b' ∷ []

fixup_rpath_braced_example :
    fixup_rpath lib_path (front ++ b'$' ∷ (braced_origin ++ back))
    ≡ parse_path_list (front ++ b'$' ∷ (braced_origin ++ back))
fixup_rpath_braced_example =
    fixup_rpath_braced lib_path front back (unfold contains_char in refl)
      (unfold contains_char in refl)
