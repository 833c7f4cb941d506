-- ===== src/Tests/LinkRuns.antt =====
-- Runs of the resolver and of whole operations.
use Prim.Native.String
use Prim.Native.String.append
use Prim.Native.Char.{Char, code}
use rust_dlopen.Common.{
  String, ◌≡◌, refl, ap, ◌∙◌, true, false, Option, none, some, [], ◌∷◌, ◌==◌, arith, if◌then◌else◌,
}
use rust_dlopen.Common.Assoc
use rust_dlopen.Common.Eq.{str_eq, string_eq}
use rust_dlopen.Common.Maybe.{elem}
use rust_dlopen.Common.Outcome.{Outcome, done}
use rust_dlopen.Names.{str_contains, libc_compat_aliases}
use rust_dlopen.Flags.{no_flags, is_noload}
use rust_dlopen.Registry.LinkContext.{find}
use rust_dlopen.Registry.State.{Manager}
use rust_dlopen.Registry.Lookup
use rust_dlopen.Registry.Lookup.{lookup_by_identity}
use rust_dlopen.Registry.Update.{add_pending_reservation, add_aliases, add_identity, remove}
use rust_dlopen.Registry.Loading.{reserve_pending}
use rust_dlopen.Registry.Consistent.{IsConsistent, registered}
use rust_dlopen.Dlopen.Platform.{
  loader_error, io, not_found, of_loader, ok, err, Platform, cached_path,
}
use rust_dlopen.Dlopen.Operation.{OpenContext, returned, after_slash, await_library, then_run}
use rust_dlopen.Dlopen.Alone.{Ensures, IsReady}
use rust_dlopen.Dlopen.Resolver.{
  resolve_first, resolve_candidate_path, resolve_existing_by_name, resolve_request, or_not_found,
}
use rust_dlopen.Dlopen.Resolver.Order.{search_order, resolve_request-search_order}
use rust_dlopen.Dlopen.Resolver.Existing
use rust_dlopen.Dlopen.Resolver.Safe.{PathLaws, resolve_request_lem}
use rust_dlopen.Dlopen.Link.{Session, load_root, resolve, link_failed, settled, dlopen_impl}
use rust_dlopen.Dlopen.Link.Driven.{IsProper}
use rust_dlopen.Dlopen.Link.Failing.{dlopen_impl-fails}
use rust_dlopen.Tests.Table.{table, table-LinkContextLaws}
use rust_dlopen.Tests.RegistryRuns.{held, held-IsConsistent}

infixr 65 ◌<>◌
abbrev ◌<>◌ : String → String → String
s <> t = String.◌++◌ s t

abbrev library_file : String
library_file = "/lib/libb.so"

-- A system with one library file, /lib/libb.so.
abbrev one_file : Platform
one_file = record {
  get_file_inode = λ path.
      if str_eq path library_file then ok (record { dev = 1; ino = 7 }) else err (io not_found);
  read_file_limit = λ path n.
      if str_eq path library_file then ok (127 ∷ b'E' ∷ b'L' ∷ b'F' ∷ []) else err (io not_found);
  read_file = λ path. err (io not_found);
  from_path = λ path. ok tt;
  file_name = λ path. after_slash path path;
  join = λ dir name. dir <> "/" <> name;
  decode_lossy = λ bytes. bytes;
  string_of = λ text. "";
  utf8 = λ name. [];
  envp = none;
  ld_cache = none;
}

after_slash-join :
    (best dir name : String) → after_slash best (dir <> "/" <> name) ≡ after_slash name name
unfolding after_slash
after_slash-join best String.[] name =
    ap (after_slash best) (append.nil ("/" <> name)) ∙ ap (after_slash best) slash_front
  where
    slash_front : "/" <> name ≡ String.◌∷◌ (Char.char 47 tt) name
    slash_front =
        append.cons (Char.char 47 tt) String.[] name
        ∙ ap (λ (t : String). String.◌∷◌ (Char.char 47 tt) t) (append.nil name)
after_slash-join best (String.◌∷◌ c dir) name =
    ap (after_slash best) (append.cons c dir ("/" <> name))
    ∙ after_slash-join (if code c == b'/' then dir <> "/" <> name else best) dir name

one_file-PathLaws : PathLaws one_file
unfolding cached_path
one_file-PathLaws = record {
  join_name = λ dir name plain. after_slash-join (dir <> "/" <> name) dir name;
  cache_reads = λ name. (none, refl);
  cached_name = λ name path e. absurd (done_none e);
}
  where
    done_none :
        {path : String} → ◌≡◌ {A = Outcome (Option String)} (done none) (done (some path)) → ⊥
    done_none h = cc

-- The linker loads the root, asks for a library that does not exist, and gives up.
abbrev gives_up : String → Session table
gives_up root = load_root root (λ a.
    resolve root none none (λ m key. registered table m key) "libmissing.so"
      (λ b. link_failed (of_loader 2)))

gives_up-IsProper : (root : String) → IsProper table (gives_up root)
gives_up-IsProper root a = (λ m key h. h, λ b. tt)

abbrev after : Manager table
after = record held { adds = 2; subs = 1 }

fails :
    dlopen_impl true table one_file 3 gives_up "libb.so" no_flags none held []
    ≡ settled (err (loader_error (of_loader 2))) after
unfolding dlopen_impl Lookup.lookup Assoc.lookup str_contains is_noload lookup_by_identity elem
    reserve_pending add_pending_reservation add_aliases libc_compat_aliases add_identity
    Assoc.insert find remove Assoc.shift_remove Assoc.retain
fails = refl

dlopen_impl-fails_example :
    IsConsistent table after × ((k : String) → registered table after k ≡ registered table held k)
dlopen_impl-fails_example =
    dlopen_impl-fails true table table-LinkContextLaws held one_file one_file-PathLaws 3 gives_up
      "libb.so" no_flags none held-IsConsistent (gives_up-IsProper "libb.so")
      (loader_error (of_loader 2)) after fails

abbrev opening : OpenContext table
opening = record {
  manager = held;
  lock = true;
  flags = no_flags;
  added_names = [];
  committed = false;
  others = [];
}

opening-IsReady : IsReady table held opening
unfolding elem
opening-IsReady = record {
  locked = refl;
  alone = refl;
  consistent = held-IsConsistent;
  added = tt;
  grown = λ k. ground arith;
  fresh = λ k h. cc;
}

resolve_request_lem_example :
    Ensures
      (Existing.Resolved true table table-LinkContextLaws held one_file none opening opening-IsReady
        (λ k h. refl))
      opening
      (resolve_request true table one_file 3 none [] [] none "libb.so" opening)
resolve_request_lem_example =
    resolve_request_lem true table table-LinkContextLaws held one_file none opening opening-IsReady
      (λ k h. refl) one_file-PathLaws 3 [] [] none "libb.so"

missing_name :
    resolve_existing_by_name {L = table} none (after_slash "libb.so" "libb.so") opening
    ≡ returned none opening
unfolding resolve_existing_by_name await_library Lookup.lookup Assoc.lookup after_slash
missing_name = refl

resolve_request-search_order_example :
    resolve_request true table one_file 3 none ("/opt" ∷ []) [] none "libb.so" opening
    ≡ then_run
        (resolve_first
          (resolve_candidate_path true table one_file
            (resolve_request true table one_file 2 none ("/opt" ∷ []) [] none)
            none
            none)
          (search_order one_file ("/opt" ∷ []) [] none "libb.so")
          opening)
        or_not_found
resolve_request-search_order_example =
    resolve_request-search_order true table one_file none ("/opt" ∷ []) [] none "libb.so" none
      (unfold cached_path in refl) 2 opening opening (unfold str_contains in refl) missing_name
