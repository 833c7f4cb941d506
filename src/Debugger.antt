-- ===== src/Debugger.antt =====
-- The list of link maps that debuggers read: src/utils/debug.rs, with the two structures of
-- src/abi.rs and the link map that src/core_impl/loader.rs makes for a library. Memory is a
-- function from addresses; an access through null or through an address that holds nothing is
-- `none`. What a debugger sees at each call of the breakpoint function is recorded.
pub mod Chain
pub mod Refine
pub mod Host
use rust_dlopen.Common.{
  ℕ, Bool, true, false, not, ◌&&◌, Option, none, some, List, [], ◌∷◌, ◌++◌, ◌==◌, if◌then◌else◌,
}
use rust_dlopen.Common.Maybe.{◌>>=◌}

abbrev pub Ptr : Type 0
Ptr = ℕ

abbrev pub null : Ptr
null = 0

abbrev pub rt_consistent : ℕ
rt_consistent = 0

abbrev pub rt_add : ℕ
rt_add = 1

abbrev pub rt_delete : ℕ
rt_delete = 2

-- The fields of `LinkMap` that describe the library.
pub record Contents : Type 0 where
  pub l_addr : ℕ
  pub l_name : Ptr
  pub l_ld : Ptr
  pub l_phdr : Ptr
  pub l_entry : ℕ
  pub l_phnum : ℕ

-- `LinkMap`
pub record LinkMap : Type 0 where
  pub contents : Contents
  pub l_next : Ptr
  pub l_prev : Ptr
  pub l_real : Ptr

-- `RDebug`; of the callback only whether there is one.
pub record RDebug : Type 0 where
  pub version : ℕ
  pub map : Ptr
  pub brk : Bool
  pub state : ℕ

abbrev pub Maps : Type 0
Maps = Ptr → Option LinkMap

-- What a debugger finds at a call of the breakpoint function.
pub record Snapshot : Type 0 where
  pub shown_state : ℕ
  pub shown_map : Ptr
  pub shown_maps : Maps

-- The static `DEBUG`, the memory, and the calls of breakpoint functions so far.
pub record World : Type 0 where
  pub debug : Ptr
  pub tail : Ptr
  pub debugs : Ptr → Option RDebug
  pub maps : Maps
  pub seen : List Snapshot

abbrev pub write {ℓ} : {A : Type ℓ} → (Ptr → Option A) → Ptr → Option A → Ptr → Option A
write h p v q = if q == p then v else h q

abbrev pub read {ℓ} : {A : Type ℓ} → (Ptr → Option A) → Ptr → Option A
read h p = if p == null then none else h p

-- `debug.state = ...` and `call_debug_state(debug)`
unfoldable pub announce : ℕ → World → Option World
announce state w = do
  d ← read w.debugs w.debug
  some (record w {
    debugs = write w.debugs w.debug (some (record d { state = state }));
    seen =
        if d.brk
        then w.seen ++ record { shown_state = state; shown_map = d.map; shown_maps = w.maps } ∷ []
        else w.seen;
  })

-- `debug.map = p`
unfoldable pub set_map : Ptr → World → Option World
set_map p w = do
  d ← read w.debugs w.debug
  some (record w { debugs = write w.debugs w.debug (some (record d { map = p })) })

-- `(*p).l_next = q`
unfoldable pub set_next : Ptr → Ptr → World → Option World
set_next p q w = do
  lm ← read w.maps p
  some (record w { maps = write w.maps p (some (record lm { l_next = q })) })

-- `(*p).l_prev = q`
unfoldable pub set_prev : Ptr → Ptr → World → Option World
set_prev p q w = do
  lm ← read w.maps p
  some (record w { maps = write w.maps p (some (record lm { l_prev = q })) })

-- `l_real` of a link map that is added: only the loader's own list has it.
abbrev pub real_of : Bool → Ptr → Ptr → Ptr
real_of owns_namespace p l_real =
    if owns_namespace then if l_real == null then p else l_real else null

module _ (internal : Ptr) where
  -- `add_debug_link_map`, where `internal` is the address of INTERNAL_GDB_DEBUG.
  unfoldable pub add_debug_link_map : Ptr → World → Option World
  add_debug_link_map p w = if w.debug == null then some w else (do
    d ← read w.debugs w.debug
    lm ← read w.maps p
    let l_real = real_of (w.debug == internal) p lm.l_real
    let lm' = record lm { l_real = l_real; l_prev = w.tail; l_next = null }
    let w₁ = record w { maps = write w.maps p (some lm') }
    w₂ ← if w.tail == null then set_map p w₁ else set_next w.tail p w₁
    w₃ ← announce rt_add (record w₂ { tail = p })
    announce rt_consistent w₃)

  -- The link map of a new library, in a box at the address `p`.
  unfoldable pub create_link_map : Ptr → Contents → World → Option World
  unfolding add_debug_link_map
  create_link_map p contents w =
      let lm : LinkMap = record { contents = contents; l_next = null; l_prev = null; l_real = p } in
      add_debug_link_map p (record w { maps = write w.maps p (some lm) })

-- The match of `Drop for ExtraData` on whether the link map is the first and the last.
unfoldable pub unlink : Bool → Bool → LinkMap → World → Option World
unfolding set_map set_next set_prev
unlink true true lm w = do w' ← set_map null w; some (record w' { tail = null })
unlink true false lm w = do w' ← set_map lm.l_next w; set_prev lm.l_next null w'
unlink false true lm w = do w' ← set_next lm.l_prev null w; some (record w' { tail = lm.l_prev })
unlink false false lm w = do w' ← set_next lm.l_prev lm.l_next w; set_prev lm.l_next lm.l_prev w'

-- The body of `Drop for ExtraData` for a library with a link map at `p`.
unfoldable pub drop_link_map : Ptr → World → Option World
drop_link_map p w = if w.debug == null then some w else (do
  d ← read w.debugs w.debug
  lm ← read w.maps p
  if not (d.map == p) && lm.l_prev == null then some w else (do
    let at_first = d.map == p
    let at_last = w.tail == p
    w₁ ← announce rt_delete w
    w₂ ← unlink at_first at_last lm w₁
    announce rt_consistent w₂))

-- The end of an `ExtraData`: its `drop`, and then that of the box of its link map.
unfoldable pub drop_extra_data : Option Ptr → World → Option World
unfolding drop_link_map
drop_extra_data none w = some w
drop_extra_data (some p) w = do
  w' ← drop_link_map p w
  some (record w' { maps = write w'.maps p none })
