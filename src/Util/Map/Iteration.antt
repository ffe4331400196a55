-- ===== src/Util/Map/Iteration.antt =====
-- CourseWorks/infos/include/infos/util/map.h: `MapIterator`, breadth first over a queue of nodes.
use inf3_os.Base.{
  subst, ℕ, zero, suc, ◌+◌, ◌<◌, ◌≤◌, ◌≡◌, refl, sym, ap, ◌∙◌, Bool, true, false, List, [], ◌∷◌,
  ◌++◌, some, ok, arith, All, All-append, ◌==◌, if◌then◌else◌, List-cases, inl, inr, length,
}
use inf3_os.Util.LinkedList
use inf3_os.Util.LinkedList.{LinkedList, u32_mod, decremented}
use inf3_os.Util.LinkedList.Counting.{
  IsCounted, append-IsCounted, elems-append, dequeue-cons, append_link-append,
}
use inf3_os.Util.Map.{
  Colour, Tree, leaf, node, Map, enqueue_child, enqueue_children, advance, seen_before, walk,
  iterate,
}
use inf3_os.Util.Map.Entries.{entries}

absurd_node : {P : Type 0} → false ≡ true → P
absurd_node h = cc

module _ {V : Type 0} where
  -- How many entries pass a test.
  unfoldable pub tally : (ℕ → V → Bool) → List (ℕ × V) → ℕ
  tally test [] = 0
  tally test (e ∷ es) = (if test e.0 e.1 then 1 else 0) + tally test es

  tally-append :
      (test : ℕ → V → Bool) (xs ys : List (ℕ × V))
      → tally test (xs ++ ys) ≡ tally test xs + tally test ys
  unfolding tally
  tally-append test [] ys = omega arith
  tally-append test (x ∷ xs) ys = omega (arith, tally-append test xs ys)

  -- The same over the trees of a queue.
  pub tallies : (ℕ → V → Bool) → List (Tree V) → ℕ
  tallies test [] = 0
  tallies test (t ∷ ts) = tally test (entries t) + tallies test ts

  tallies-append :
      (test : ℕ → V → Bool) (ts us : List (Tree V))
      → tallies test (ts ++ us) ≡ tallies test ts + tallies test us
  unfolding tallies
  tallies-append test [] us = omega arith
  tallies-append test (t ∷ ts) us = omega (arith, tallies-append test ts us)

  abbrev everything : ℕ → V → Bool
  everything k v = true

  abbrev is_node : Tree V → Bool
  is_node leaf = false
  is_node (node c l k v r) = true

  -- A queue of nodes, none of them NULL, with its count.
  record IsQueue (queue : LinkedList (Tree V)) : Type 0 where
    nodes : All (λ t. is_node t ≡ true) queue.elems
    counted : IsCounted queue

  -- A child in the queue, or not if it is NULL.
  record IsEnqueued (queue after : LinkedList (Tree V)) (t : Tree V) : Type 0 where
    valid : IsQueue after
    adds :
        (test : ℕ → V → Bool)
        → tallies test after.elems ≡ tallies test queue.elems + tally test (entries t)

  enqueue_child-IsEnqueued :
      (queue : LinkedList (Tree V)) (t : Tree V)
      → IsQueue queue
      → IsEnqueued queue (enqueue_child queue t) t
  unfolding LinkedList.enqueue tally tallies entries
  enqueue_child-IsEnqueued queue leaf v = record { valid = v; adds = λ test. omega arith }
  enqueue_child-IsEnqueued queue (node c l k v r) q =
      let t : Tree V = node c l k v r in
      record {
        valid = record {
          nodes =
              subst (All (λ x. is_node x ≡ true)) (sym (elems-append queue t))
                (All-append (λ x. is_node x ≡ true) queue.elems (t ∷ []) q.nodes (refl, tt));
          counted = append-IsCounted queue t q.counted;
        };
        adds = λ test.
            ap (tallies test) (append_link-append t queue.elems)
            ∙ tallies-append test queue.elems (t ∷ [])
            ∙ omega arith;
      }

  tally-everything : (es : List (ℕ × V)) → tally everything es ≡ length es
  unfolding tally
  tally-everything [] = refl
  tally-everything (e ∷ es) = omega (arith, tally-everything es)

  some_node : (t : Tree V) → is_node t ≡ true → 0 < tally everything (entries t)
  unfolding tally entries
  some_node leaf h = cc
  some_node (node c l k v r) h =
      omega (arith, tally-append everything (entries l) ((k, v) ∷ entries r))

  length-tallies :
      (ts : List (Tree V)) → All (λ t. is_node t ≡ true) ts → length ts ≤ tallies everything ts
  unfolding tallies
  length-tallies [] h = omega arith
  length-tallies (t ∷ ts) (h, hs) = omega (arith, some_node t h, length-tallies ts hs)

  -- A walk over a queue ends, and sees each entry once.
  abbrev Walks : ℕ → LinkedList (Tree V) → Type 0
  Walks fuel queue =
      (out : List (ℕ × V)) × (walk fuel queue ≡ ok (some out))
      × ((test : ℕ → V → Bool) → tally test out ≡ tallies test queue.elems)

  abbrev without_first : LinkedList (Tree V) → List (Tree V) → LinkedList (Tree V)
  without_first queue ts = record { elems = ts; counter = decremented queue.counter }

  advance-cons :
      (queue : LinkedList (Tree V)) (t : Tree V) (ts : List (Tree V))
      → queue.elems ≡ t ∷ ts
      → IsCounted queue
      → length queue.elems < u32_mod
      → advance queue ≡ ok (t, enqueue_children (without_first queue ts) t)
  unfolding advance
  advance-cons queue t ts e counted short =
      let filled : (queue.counter == 0) ≡ false = ground (arith, counted, short, ap length e) in
      rw (filled, dequeue-cons queue t ts e) refl

  advance_end :
      (queue : LinkedList (Tree V))
      → queue.elems ≡ []
      → IsCounted queue
      → advance queue ≡ ok (leaf, queue)
  unfolding advance
  advance_end queue e counted =
      let none_left : (queue.counter == 0) ≡ true = ground (arith, counted, ap length e) in
      rw none_left refl

  tally_node :
      (test : ℕ → V → Bool) (c : Colour) (l : Tree V) (k : ℕ) (v : V) (r : Tree V)
      → tally test (entries (node c l k v r))
        ≡ (if test k v then 1 else 0) + (tally test (entries l) + tally test (entries r))
  unfolding tally entries
  tally_node test c l k v r = omega (arith, tally-append test (entries l) ((k, v) ∷ entries r))

  -- The queue after a node was taken and its children put in.
  after_node :
      (queue : LinkedList (Tree V)) (c : Colour) (l : Tree V) (k : ℕ) (v : V) (r : Tree V)
      (ts : List (Tree V))
      → IsQueue queue
      → queue.elems ≡ node c l k v r ∷ ts
      → let after = enqueue_children (without_first queue ts) (node c l k v r) in
        IsQueue after
        × ((test : ℕ → V → Bool)
            → tallies test queue.elems ≡ (if test k v then 1 else 0) + tallies test after.elems)
  unfolding tallies
  after_node queue c l k v r ts q e =
      let rest : IsQueue (without_first queue ts) = record {
        nodes = (subst (All (λ x. is_node x ≡ true)) e q.nodes).1;
        counted = omega (arith, q.counted, ap length e);
      } in
      let with_left = enqueue_child-IsEnqueued (without_first queue ts) l rest in
      let with_right =
        enqueue_child-IsEnqueued (enqueue_child (without_first queue ts) l) r with_left.valid in
      (
        with_right.valid,
        λ test.
            ap (tallies test) e
            ∙ omega (arith, tally_node test c l k v r, with_left.adds test, with_right.adds test),
      )

  walk_node :
      (fuel : ℕ) (queue : LinkedList (Tree V)) (t : Tree V) (ts : List (Tree V))
      → IsQueue queue
      → queue.elems ≡ t ∷ ts
      → tallies everything queue.elems < u32_mod
      → tallies everything queue.elems < suc fuel
      → ((after : LinkedList (Tree V))
          → IsQueue after
          → tallies everything after.elems < u32_mod
          → tallies everything after.elems < fuel
          → Walks fuel after)
      → Walks (suc fuel) queue
  unfolding walk seen_before tally
  walk_node fuel queue leaf ts q e small h next =
      absurd_node (subst (All (λ x. is_node x ≡ true)) e q.nodes).0
  walk_node fuel queue (node c l k v r) ts q e small h next =
      let (valid, counts) = after_node queue c l k v r ts q e in
      let after = enqueue_children (without_first queue ts) (node c l k v r) in
      let (out, done, seen) =
        next after valid (omega (arith, counts everything)) (omega (arith, counts everything)) in
      let short : length queue.elems < u32_mod =
        omega (arith, length-tallies queue.elems q.nodes) in
      (
        (k, v) ∷ out,
        rw (advance-cons queue (node c l k v r) ts e q.counted short, done) refl,
        λ test. omega (arith, counts test, seen test),
      )

  walk-tally :
      (fuel : ℕ) (queue : LinkedList (Tree V))
      → IsQueue queue
      → tallies everything queue.elems < u32_mod
      → tallies everything queue.elems < fuel
      → Walks fuel queue
  unfolding walk seen_before tally tallies
  walk-tally zero queue q small h = ground arith
  walk-tally (suc fuel) queue q small h = elim (List-cases queue.elems) [
    | inl e ↦ ([], rw (advance_end queue e q.counted) refl, λ test. sym (ap (tallies test) e))
    | inr (t, ts, e) ↦ walk_node fuel queue t ts q e small h (walk-tally fuel)
  ]

  -- A loop from `begin` to `end` ends, with one round more than there are entries, where there are
  -- fewer than 2 ^ 32. It sees every entry of the map as often as the map holds it: of any test,
  -- just as many entries pass among those seen and among those of the map.
  pub iterate-tally :
      (fuel : ℕ) (m : Map V)
      → length (entries m.root) < u32_mod
      → length (entries m.root) < fuel
      → (out : List (ℕ × V)) × (iterate fuel m ≡ ok (some out))
        × ((test : ℕ → V → Bool) → tally test out ≡ tally test (entries m.root))
  unfolding iterate tallies
  iterate-tally fuel m small h =
      let q : IsQueue LinkedList.new = record { nodes = tt; counted = refl } in
      let start = enqueue_child-IsEnqueued LinkedList.new m.root q in
      let all = tally-everything (entries m.root) in
      let (out, done, seen) =
        walk-tally fuel (enqueue_child LinkedList.new m.root) start.valid
          (omega (arith, start.adds everything, all)) (omega (arith, start.adds everything, all)) in
      (out, done, λ test. omega (arith, seen test, start.adds test))
