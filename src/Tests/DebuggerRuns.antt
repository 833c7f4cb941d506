-- ===== src/Tests/DebuggerRuns.antt =====
-- Runs of the list of link maps.
use rust_dlopen.Common.{ℕ, ◌≡◌, refl, true, none, some, List, [], ◌∷◌, ◌==◌, arith, if◌then◌else◌}
use rust_dlopen.Debugger.{Ptr, null, Contents, LinkMap, RDebug, World, drop_link_map, rt_delete}
use rust_dlopen.Debugger.Chain.{Entries, Chain}
use rust_dlopen.Debugger.Host.{init_host_debug, find_host_link_map, address_of, init_host_debug_lem}
use rust_dlopen.Debugger.Refine.{Command, load, unload, apply_all, perform_all, perform_all-refines}
use rust_dlopen.Debugger.Refine.Shown.{Shows, Told, SameOutside}
use rust_dlopen.Debugger.Refine.Drop.{drop_lem}

abbrev contents_at : ℕ → Contents
contents_at base = record {
  l_addr = base;
  l_name = 0;
  l_ld = 0;
  l_phdr = 0;
  l_entry = 0;
  l_phnum = 0;
}

abbrev link : ℕ → Ptr → Ptr → Ptr → LinkMap
link base next prev real = record {
  contents = contents_at base;
  l_next = next;
  l_prev = prev;
  l_real = real;
}

abbrev debug_at : Ptr → RDebug
debug_at p = record { version = 1; map = p; brk = true; state = 0 }

-- The loader's own debug structure, at the address 100.
abbrev nothing_loaded : World
nothing_loaded = record {
  debug = 100;
  tail = null;
  debugs = λ q. if q == 100 then some (debug_at null) else none;
  maps = λ q. none;
  seen = [];
}

abbrev three_listed : World
three_listed = record {
  debug = 200;
  tail = 3;
  debugs = λ q. if q == 200 then some (debug_at 1) else none;
  maps = λ q.
      if q == 1
      then some (link 4096 2 0 1)
      else if q == 2
      then some (link 8192 3 1 0)
      else if q == 3
      then some (link 12288 0 2 0)
      else none;
  seen = [];
}

abbrev three : Entries
three = (1, contents_at 4096) ∷ (2, contents_at 8192) ∷ (3, contents_at 12288) ∷ []

nothing-Shows : Shows nothing_loaded true []
nothing-Shows = record {
  head = record {
    info = debug_at null;
    ne_null = omega arith;
    holds = refl;
    at_first = refl;
    calls_back = refl;
  };
  at_last = refl;
  chain = tt;
  distinct = tt;
}

three-Chain : Chain three_listed.maps null null three
three-Chain = (
  record { real = 1; ne_null = omega arith; holds = refl },
  (
    record { real = 0; ne_null = omega arith; holds = refl },
    (record { real = 0; ne_null = omega arith; holds = refl }, tt),
  ),
)

three-Shows : Shows three_listed true three
three-Shows = record {
  head = record {
    info = debug_at 1;
    ne_null = omega arith;
    holds = refl;
    at_first = refl;
    calls_back = refl;
  };
  at_last = refl;
  chain = three-Chain;
  distinct = (refl, (refl, (refl, tt)));
}

abbrev loads : List Command
loads =
    load 1 (contents_at 4096)
    ∷ load 2 (contents_at 8192)
    ∷ load 3 (contents_at 12288)
    ∷ unload 2
    ∷ []

loads_result : apply_all loads [] ≡ (1, contents_at 4096) ∷ (3, contents_at 12288) ∷ []
unfolding apply_all
loads_result = refl

perform_all-refines_example :
    (w' : World) × (perform_all 100 loads nothing_loaded ≡ some w')
    × Shows w' true (apply_all loads [])
unfolding apply_all
perform_all-refines_example =
    perform_all-refines 100 true loads nothing_loaded [] nothing-Shows
      ((omega arith, refl), ((omega arith, refl), ((omega arith, refl), (refl, tt))))

drop_lem_example :
    (w' : World) × (drop_link_map 2 three_listed ≡ some w')
    × Shows w' true ((1, contents_at 4096) ∷ (3, contents_at 12288) ∷ [])
    × Told three_listed w' true rt_delete three
        ((1, contents_at 4096) ∷ (3, contents_at 12288) ∷ [])
    × SameOutside ((1, contents_at 4096) ∷ (3, contents_at 12288) ∷ []) three_listed w'
drop_lem_example =
    drop_lem three_listed true ((1, contents_at 4096) ∷ []) ((3, contents_at 12288) ∷ []) 2
      (contents_at 8192) three-Shows

init_host_debug_lem_example :
    (w' : World) × (init_host_debug 4 200 (record three_listed { debug = 0; tail = 0 }) ≡ some w')
    × Shows w' true three
    × ((base : ℕ) → find_host_link_map 4 base w' ≡ some (address_of base three))
init_host_debug_lem_example =
    init_host_debug_lem (record three_listed { debug = 0; tail = 0 }) 200 (debug_at 1) three 4
      (record {
        ne_null = omega arith;
        holds = refl;
        at_first = refl;
        chain = three-Chain;
        distinct = (refl, (refl, (refl, tt)));
      })
      (omega arith)
