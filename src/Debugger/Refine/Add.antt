-- ===== src/Debugger/Refine/Add.antt =====
-- `add_debug_link_map` of src/utils/debug.rs appends to the list.
use rust_dlopen.Common.{
  ◌≡◌, ◌≢◌, sym, subst, ap, ◌∙◌, Bool, false, some, [], ◌∷◌, ◌++◌, ◌==◌, arith,
}
use rust_dlopen.Common.Maybe.{◌>>=◌, bind-some}
use rust_dlopen.Debugger.{
  Ptr, null, LinkMap, Maps, World, write, rt_add, rt_consistent, real_of, announce,
  add_debug_link_map,
}
use rust_dlopen.Debugger.Chain.{
  Entries, has, first, Chain, frame, Chain-join, first-append, last-append, has-append,
  IsDistinct-snoc,
}
use rust_dlopen.Debugger.Refine.Ends.{Head, Touches, set_after, set_after_lem}
use rust_dlopen.Debugger.Refine.Shown.{
  Shows, Announced, announce_lem, Reports-of_Announced, Told, calls_twice, SameOutside,
}

module _ (internal : Ptr) (w : World) (brk : Bool) (xs : Entries) (p : Ptr) (lm : LinkMap)
    (s : Shows w brk xs) (fresh : has p xs ≡ false) (ne_null : p ≢ null)
    (holds : w.maps p ≡ some lm) where
  abbrev xs' : Entries
  xs' = xs ++ (p, lm.contents) ∷ []

  abbrev fresh_map : LinkMap
  fresh_map = record lm {
    l_real = real_of (w.debug == internal) p lm.l_real;
    l_prev = w.tail;
    l_next = null;
  }

  abbrev w₁ : World
  w₁ = record w { maps = write w.maps p (some fresh_map) }

  abbrev Goal : Type 0
  Goal =
      (w' : World) × (add_debug_link_map internal p w ≡ some w')
      × Shows w' brk xs'
      × Told w w' brk rt_add xs' xs'
      × SameOutside xs' w w'

  add_run :
      (w₂ w₃ : World)
      → set_after w.tail p w₁ ≡ some w₂
      → (do w₃' ← announce rt_add (record w₂ { tail = p }); announce rt_consistent w₃') ≡ some w₃
      → add_debug_link_map internal p w ≡ some w₃
  unfolding add_debug_link_map
  add_run w₂ w₃ e f =
      let open_list : (w.debug == null) ≡ false = ground (arith, s.head.ne_null) in
      let given : (p == null) ≡ false = ground arith in
      rw (open_list, s.head.holds, given, holds, e) f

  links : (w₂ : World) → Chain w₂.maps null p xs → Touches xs w₁ w₂ → Chain w₂.maps null null xs'
  links w₂ ch t = Chain-join w₂.maps null null xs ((p, lm.contents) ∷ []) ch (
    record {
      real = fresh_map.l_real;
      ne_null = ne_null;
      holds = ground (arith, t.same_outside p fresh, s.at_last);
    },
    tt,
  )

  told :
      (w₂ w₃ w₄ : World)
      → Chain w₂.maps null null xs'
      → set_after w.tail p w₁ ≡ some w₂
      → Touches xs w₁ w₂
      → Announced rt_add (record w₂ { tail = p }) w₃ brk (first null xs')
      → Announced rt_consistent w₃ w₄ brk (first null xs')
      → Goal
  told w₂ w₃ w₄ ch e t a b =
      let ch₃ : Chain w₃.maps null null xs' =
        subst (λ (h : Maps). Chain h null null xs') (sym a.same_maps) ch in
      let ch₄ : Chain w₄.maps null null xs' =
        subst (λ (h : Maps). Chain h null null xs') (sym b.same_maps) ch₃ in
      (
        w₄,
        add_run w₂ w₄ e (bind-some (announce rt_consistent) a.run b.run),
        record {
          head = b.head;
          at_last = b.same_tail ∙ a.same_tail ∙ sym (last-append null xs ((p, lm.contents) ∷ []));
          chain = ch₄;
          distinct = IsDistinct-snoc xs p lm.contents s.distinct fresh;
        },
        record {
          one = a.shown;
          two = b.shown;
          calls = b.calls ∙ rw (a.calls, t.same_seen) (calls_twice brk w.seen a.shown b.shown);
          reports_one = Reports-of_Announced rt_add _ _ brk xs' a ch;
          reports_two = Reports-of_Announced rt_consistent _ _ brk xs' b ch₃;
        },
        λ q o.
            rw (b.same_maps, a.same_maps)
              (ground (arith, has-append q xs ((p, lm.contents) ∷ []), t.same_outside q)),
      )

  -- `add_debug_link_map` on a link map that is not on the list does not fault and appends it. The
  -- debugger is told of the longer list as added and as consistent; other link maps stay as they
  -- are.
  pub add_lem : Goal
  add_lem =
      let held : Head w₁ brk (first null xs) = record {
        info = s.head.info;
        ne_null = s.head.ne_null;
        holds = s.head.holds;
        at_first = s.head.at_first;
        calls_back = s.head.calls_back;
      } in
      let spared : Chain w₁.maps null null xs =
        frame w.maps w₁.maps null null xs s.chain (λ q i. ground arith) in
      let (w₂, e₂, hd, ch, t) = set_after_lem w₁ brk null p xs held spared s.distinct in
      let hd₃ : Head (record w₂ { tail = p }) brk (first null xs') = record {
        info = hd.info;
        ne_null = hd.ne_null;
        holds = hd.holds;
        at_first = hd.at_first ∙ sym (first-append null xs ((p, lm.contents) ∷ []));
        calls_back = hd.calls_back;
      } in
      let (w₃, a) = announce_lem rt_add (record w₂ { tail = p }) brk (first null xs') hd₃ in
      let (w₄, b) = announce_lem rt_consistent w₃ brk (first null xs') a.head in
      told w₂ w₃ w₄ (links w₂ ch t) (ap (λ (t : Ptr). set_after t p w₁) s.at_last ∙ e₂) t a b
