-- ===== src/Debugger/Refine/Drop.antt =====
-- `Drop for ExtraData` of src/utils/debug.rs takes the link map off the list.
use rust_dlopen.Common.{
  ◌≡◌, refl, sym, subst, ap, ◌∙◌, Bool, true, false, Option, some, [], ◌∷◌, ◌++◌, ◌==◌, arith, not,
  ◌&&◌, ==_iff, Bool-cases, inl, inr, if◌then◌else◌,
}
use rust_dlopen.Common.Maybe.{bind-some}
use rust_dlopen.Debugger.{
  Ptr, null, Contents, LinkMap, Maps, World, write, rt_delete, rt_consistent, announce, set_prev,
  unlink, drop_link_map,
}
use rust_dlopen.Debugger.Chain.{
  Entries, has, IsDistinct, first, last, Chain, frame, Chain-split, Chain-join, last_ne_null,
  first-append, last-append, has-append, IsDistinct-drop, IsDistinct-left, IsDistinct-right,
  disjoint_of_IsDistinct,
}
use rust_dlopen.Debugger.Refine.Ends.{Head, Touches, set_after, set_after_lem, set_prev_lem}
use rust_dlopen.Debugger.Refine.Shown.{
  Shows, Announced, announce_lem, Reports-of_Announced, Told, calls_twice, SameOutside,
}

-- The pointer to what precedes a list is set: the tail if the list is empty, else in its first
-- link map.
abbrev set_before : Ptr → Ptr → World → Option World
set_before next prev w =
    if next == null then some (record w { tail = prev }) else set_prev next prev w

-- The four cases of the match are one: the pointer after the link maps before it, and that before
-- the link maps after it.
unlink_lem :
    (at_first at_last : Bool) (lm : LinkMap) (w w₁ : World)
    → at_first ≡ (lm.l_prev == null)
    → at_last ≡ (lm.l_next == null)
    → set_after lm.l_prev lm.l_next w ≡ some w₁
    → unlink at_first at_last lm w ≡ set_before lm.l_next lm.l_prev w₁
unfolding unlink
unlink_lem true true lm w w₁ e f run = ground arith
unlink_lem true false lm w w₁ e f run = ground arith
unlink_lem false true lm w w₁ e f run = ground arith
unlink_lem false false lm w w₁ e f run = ground arith

-- What `set_before` leaves alone: all but the tail and the link maps of `ys`.
record Rejoined (w w' : World) (start : Ptr) (ys : Entries) : Type 0 where
  at_last : w'.tail ≡ last start ys
  chain : Chain w'.maps start null ys
  same_debug : w'.debug ≡ w.debug
  same_debugs : w'.debugs ≡ w.debugs
  same_seen : w'.seen ≡ w.seen
  same_outside : (q : Ptr) → has q ys ≡ false → w'.maps q ≡ w.maps q

set_before_lem :
    (w : World) (start start' : Ptr) (ys : Entries)
    → Chain w.maps start null ys
    → IsDistinct ys
    → w.tail ≡ last start ys
    → (w' : World) × (set_before (first null ys) start' w ≡ some w') × Rejoined w w' start' ys
set_before_lem w start start' [] ch d e = (
  record w { tail = start' },
  refl,
  record {
    at_last = refl;
    chain = tt;
    same_debug = refl;
    same_debugs = refl;
    same_seen = refl;
    same_outside = λ q o. refl;
  },
)
set_before_lem w start start' ((q, c) ∷ ys) ch d e =
    let (lm, run, ch') = set_prev_lem w start start' null q c ys ch d.0 in
    (
      record w { maps = write w.maps q (some lm) },
      ground (arith, ch.0.ne_null, run),
      record {
        at_last = e;
        chain = ch';
        same_debug = refl;
        same_debugs = refl;
        same_seen = refl;
        same_outside = λ p o. ground arith;
      },
    )

has-last : (q : Ptr) (c : Contents) (ys : Entries) → has (last q ys) ((q, c) ∷ ys) ≡ true
has-last q c [] = ground arith
has-last q c ((r, d) ∷ ys) = ground (arith, has-last r d ys)

-- The list before `p` is empty exactly if `p` is the first of the whole.
first_lem :
    (h : Maps) (p : Ptr) (xs : Entries)
    → Chain h null p xs
    → has p xs ≡ false
    → (first p xs == p) ≡ (last null xs == null)
first_lem h p [] ch out = ground arith
first_lem h p ((q, c) ∷ xs) ch out = ground (arith, last_ne_null h null p q c xs ch)

last_lem :
    (h : Maps) (p : Ptr) (ys : Entries)
    → Chain h p null ys
    → has p ys ≡ false
    → (last p ys == p) ≡ (first null ys == null)
last_lem h p [] ch out = ground arith
last_lem h p ((q, c) ∷ ys) ch out = elim (Bool-cases (last q ys == p)) [
  | inl e ↦
      let same : last q ys ≡ p = (==_iff (last q ys) p).0 e in
      absurd
        (ground (arith, subst (λ (t : Ptr). has t ((q, c) ∷ ys) ≡ true) same (has-last q c ys)))
  | inr e ↦ ground (arith, ch.0.ne_null)
]

module _ (w : World) (brk : Bool) (xs ys : Entries) (p : Ptr) (c : Contents)
    (s : Shows w brk (xs ++ (p, c) ∷ ys)) where
  abbrev parts : Chain w.maps null p xs × Chain w.maps (last null xs) null ((p, c) ∷ ys)
  parts = Chain-split w.maps null null xs ((p, c) ∷ ys) s.chain

  abbrev lm : LinkMap
  lm = record {
    contents = c;
    l_next = first null ys;
    l_prev = last null xs;
    l_real = parts.1.0.real;
  }

  out_left : has p xs ≡ false
  out_left = ground (arith, disjoint_of_IsDistinct xs ((p, c) ∷ ys) s.distinct p)

  out_right : has p ys ≡ false
  out_right = (IsDistinct-right xs ((p, c) ∷ ys) s.distinct).0

  is_first : (s.head.info.map == p) ≡ (last null xs == null)
  is_first =
      rw (s.head.at_first ∙ first-append null xs ((p, c) ∷ ys))
        (first_lem w.maps p xs parts.0 out_left)

  is_last : (w.tail == p) ≡ (first null ys == null)
  is_last =
      rw (s.at_last ∙ last-append null xs ((p, c) ∷ ys)) (last_lem w.maps p ys parts.1.1 out_right)

  guard_fails : (not (s.head.info.map == p) && last null xs == null) ≡ false
  guard_fails = rw is_first (ground arith)

  drop_run :
      (w₁ w₂ w₃ w₄ : World)
      → announce rt_delete w ≡ some w₁
      → set_after (last null xs) (first null ys) w₁ ≡ some w₂
      → set_before (first null ys) (last null xs) w₂ ≡ some w₃
      → announce rt_consistent w₃ ≡ some w₄
      → drop_link_map p w ≡ some w₄
  unfolding drop_link_map
  drop_run w₁ w₂ w₃ w₄ a e f b =
      let open_list : (w.debug == null) ≡ false = ground (arith, s.head.ne_null) in
      let given : (p == null) ≡ false = ground (arith, parts.1.0.ne_null) in
      rw (open_list, s.head.holds, given, parts.1.0.holds, guard_fails, a)
        (bind-some (announce rt_consistent)
          (unlink_lem (s.head.info.map == p) (w.tail == p) lm w₁ w₂ is_first is_last e ∙ f) b)

  abbrev Goal : Type 0
  Goal =
      (w' : World) × (drop_link_map p w ≡ some w')
      × Shows w' brk (xs ++ ys)
      × Told w w' brk rt_delete (xs ++ (p, c) ∷ ys) (xs ++ ys)
      × SameOutside (xs ++ ys) w w'

  told :
      (w₁ w₂ w₃ w₄ : World)
      → (a : Announced rt_delete w w₁ brk (first null (xs ++ (p, c) ∷ ys)))
      → set_after (last null xs) (first null ys) w₁ ≡ some w₂
      → Touches xs w₁ w₂
      → set_before (first null ys) (last null xs) w₂ ≡ some w₃
      → Rejoined w₂ w₃ (last null xs) ys
      → Chain w₃.maps null null (xs ++ ys)
      → (b : Announced rt_consistent w₃ w₄ brk (first null (xs ++ ys))) → Goal
  told w₁ w₂ w₃ w₄ a e t f r ch b = (
    w₄,
    drop_run w₁ w₂ w₃ w₄ a.run e f b.run,
    record {
      head = b.head;
      at_last = b.same_tail ∙ r.at_last ∙ sym (last-append null xs ys);
      chain = subst (λ (h : Maps). Chain h null null (xs ++ ys)) (sym b.same_maps) ch;
      distinct = (IsDistinct-drop xs ys p c s.distinct).0;
    },
    record {
      one = a.shown;
      two = b.shown;
      calls =
          b.calls ∙ rw (r.same_seen, t.same_seen, a.calls) (calls_twice brk w.seen a.shown b.shown);
      reports_one = Reports-of_Announced rt_delete _ _ brk (xs ++ (p, c) ∷ ys) a s.chain;
      reports_two = Reports-of_Announced rt_consistent _ _ brk (xs ++ ys) b ch;
    },
    λ q o. rw (b.same_maps) (
        ground (
          arith,
          has-append q xs ys,
          r.same_outside q,
          t.same_outside q,
          ap (λ (h : Maps). h q) a.same_maps,
        )),
  )

  apart : (q : Ptr) → has q ys ≡ true → has q xs ≡ false
  apart q i = elim (Bool-cases (has q xs)) [
    | inl e ↦ absurd (ground (arith, disjoint_of_IsDistinct xs ((p, c) ∷ ys) s.distinct q e))
    | inr e ↦ e
  ]

  join :
      (w₁ w₂ : World)
      → (a : Announced rt_delete w w₁ brk (first null (xs ++ (p, c) ∷ ys)))
      → set_after (last null xs) (first null ys) w₁ ≡ some w₂
      → Head w₂ brk (first (first null ys) xs)
      → Chain w₂.maps null (first null ys) xs
      → Touches xs w₁ w₂
      → Chain w₂.maps p null ys
      → w₂.tail ≡ last p ys
      → Goal
  join w₁ w₂ a e hd ch t chy tl =
      let (w₃, f, r) =
        set_before_lem w₂ p (last null xs) ys chy (IsDistinct-right xs ((p, c) ∷ ys) s.distinct).1
          tl in
      let ch₃ : Chain w₃.maps null null (xs ++ ys) =
        Chain-join w₃.maps null null xs ys
          (frame w₂.maps w₃.maps null (first null ys) xs ch (λ q i.
            r.same_outside q
              (ground (arith, disjoint_of_IsDistinct xs ((p, c) ∷ ys) s.distinct q i))))
          r.chain in
      let hd₃ : Head w₃ brk (first null (xs ++ ys)) = record {
        info = hd.info;
        ne_null = rw r.same_debug hd.ne_null;
        holds = rw (r.same_debug, r.same_debugs) hd.holds;
        at_first = hd.at_first ∙ sym (first-append null xs ys);
        calls_back = hd.calls_back;
      } in
      let (w₄, b) = announce_lem rt_consistent w₃ brk (first null (xs ++ ys)) hd₃ in
      told w₁ w₂ w₃ w₄ a e t f r ch₃ b

  -- A link map that is on the list is taken off it, without a fault. The debugger is told of the
  -- old list as being deleted from and of the new one as consistent; link maps that are not on the
  -- new list stay as they are, also the one that was taken off.
  pub drop_lem : Goal
  drop_lem =
      let (w₁, a) = announce_lem rt_delete w brk (first null (xs ++ (p, c) ∷ ys)) s.head in
      let ch₁ : Chain w₁.maps null null (xs ++ (p, c) ∷ ys) =
        subst (λ (h : Maps). Chain h null null (xs ++ (p, c) ∷ ys)) (sym a.same_maps) s.chain in
      let hd₁ : Head w₁ brk (first p xs) =
        subst (Head w₁ brk) (first-append null xs ((p, c) ∷ ys)) a.head in
      let (l, r) = Chain-split w₁.maps null null xs ((p, c) ∷ ys) ch₁ in
      let dxs = IsDistinct-left xs ((p, c) ∷ ys) s.distinct in
      let dys = (IsDistinct-right xs ((p, c) ∷ ys) s.distinct).1 in
      let (w₂, e, hd₂, ch₂, t) = set_after_lem w₁ brk p (first null ys) xs hd₁ l dxs in
      join w₁ w₂ a e hd₂ ch₂ t
        (frame w₁.maps w₂.maps p null ys r.1 (λ q i. t.same_outside q (apart q i)))
        (t.same_tail ∙ a.same_tail ∙ s.at_last ∙ last-append null xs ((p, c) ∷ ys))
