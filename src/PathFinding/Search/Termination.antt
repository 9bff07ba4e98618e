-- ===== src/PathFinding/Search/Termination.antt =====
-- pathFinding.ts: the worklist loops end. Each round replaces a path by longer ones, and the number
-- of link targets off a path falls, so the rounds that the queue can still cause fall too.
use native.Mathlib.Nat.{mul-le-mul_left, mul-le-mul_right}
use stridetastic.Prelude.{
  ℕ, zero, suc, ◌+◌, ◌*◌, ◌≤◌, ◌<◌, ◌≡◌, refl, ap, ◌⊎◌, inl, inr, String, Bool, true, false, some,
  List, [], ◌∷◌, ◌++◌, arith, eq_iff, eq_refl, length, contains, contains-append, Bool-cases,
  List-cases,
}
use stridetastic.Types.{ForceGraphLink}
use stridetastic.PathFinding.{link_exists, neighbors, build_adjacency_list}
use stridetastic.PathFinding.Adjacency.{contains-build_adjacency_list, length-neighbors}
use stridetastic.PathFinding.Search.{
  Item, Search, extend, search_loop, start, search_budget, unseen, rounds, target_ids, path_rounds,
}

contains-head : (n : String) (ns : List String) → contains n (n ∷ ns) ≡ true
contains-head n ns = rw eq_refl

contains-tail :
    (n m : String) (ns : List String) → contains m ns ≡ true → contains m (n ∷ ns) ≡ true
contains-tail n m ns h = ground arith

unseen-snoc-le :
    (ids path : List String) (n : String) → unseen ids (path ++ n ∷ []) ≤ unseen ids path
unfolding unseen
unseen-snoc-le [] path n = omega arith
unseen-snoc-le (id ∷ ids) path n =
    ground (arith, contains-append id path (n ∷ []), unseen-snoc-le ids path n)

unseen-snoc-lt :
    (ids path : List String) (n : String)
    → contains n ids ≡ true
    → contains n path ≡ false
    → unseen ids (path ++ n ∷ []) < unseen ids path
unfolding unseen
unseen-snoc-lt [] path n h k = ground arith
unseen-snoc-lt (id ∷ ids) path n h k = ground (
  arith,
  contains-append id path (n ∷ []),
  unseen-snoc-le ids path n,
  unseen-snoc-lt ids path n,
  eq_iff id n,
  eq_iff n id,
)

rounds-pos : (most k : ℕ) → 0 < rounds most k
unfolding rounds
rounds-pos most zero = omega arith
rounds-pos most (suc k) = omega arith

rounds_mono : (most a b : ℕ) → a ≤ b → rounds most a ≤ rounds most b
unfolding rounds
rounds_mono most zero b h = rounds-pos most b
rounds_mono most (suc a) zero h = absurd (omega arith)
rounds_mono most (suc a) (suc b) h =
    omega (arith, mul-le-mul_left most (rounds_mono most a b (omega arith)))

module _ (links : List ForceGraphLink) where
  -- The rounds that a queue can still cause.
  pub queue_rounds : List Item → ℕ
  queue_rounds [] = 0
  queue_rounds (item ∷ rest) = path_rounds links item.path + queue_rounds rest

  pub path_rounds-pos : (path : List String) → 0 < path_rounds links path
  unfolding path_rounds
  path_rounds-pos path = rounds-pos _ _

  pub queue_rounds-append :
      (xs ys : List Item) → queue_rounds (xs ++ ys) ≡ queue_rounds xs + queue_rounds ys
  unfolding queue_rounds
  queue_rounds-append [] ys = omega arith
  queue_rounds-append (x ∷ xs) ys = omega (arith, queue_rounds-append xs ys)

  -- With `u + 1` targets unseen, each extension has at most `u` unseen.
  queue_rounds-extend :
      (allowed : String → Bool) (path ns : List String) (u : ℕ)
      → unseen (target_ids links) path ≤ suc u
      → ((n : String) → contains n ns ≡ true → contains n (target_ids links) ≡ true)
      → queue_rounds (extend allowed path ns) ≤ length ns * rounds (2 * length links) u
  unfolding queue_rounds extend path_rounds
  queue_rounds-extend allowed path [] u h k = omega arith
  queue_rounds-extend allowed path (n ∷ ns) u h k = ground (
    arith,
    queue_rounds-extend allowed path ns u h (λ m e. k m (contains-tail n m ns e)),
    unseen-snoc-lt (target_ids links) path n (k n (contains-head n ns)),
    rounds_mono (2 * length links) (unseen (target_ids links) (path ++ n ∷ [])) u,
  )

  -- With no target unseen nothing is queued.
  extend-nil :
      (allowed : String → Bool) (path ns : List String)
      → unseen (target_ids links) path ≡ 0
      → ((n : String) → contains n ns ≡ true → contains n (target_ids links) ≡ true)
      → extend allowed path ns ≡ []
  unfolding extend
  extend-nil allowed path [] h k = refl
  extend-nil allowed path (n ∷ ns) h k = ground (
    arith,
    extend-nil allowed path ns h (λ m e. k m (contains-tail n m ns e)),
    unseen-snoc-lt (target_ids links) path n (k n (contains-head n ns)),
  )

  -- An item causes more rounds than all its extensions together.
  queue_rounds-extend-lt :
      (allowed : String → Bool) (path ns : List String)
      → length ns ≤ 2 * length links
      → ((n : String) → contains n ns ≡ true → contains n (target_ids links) ≡ true)
      → queue_rounds (extend allowed path ns) < path_rounds links path
  unfolding path_rounds
  queue_rounds-extend-lt allowed path ns few k = go (unseen (target_ids links) path) refl
    where
      go :
          (v : ℕ)
          → unseen (target_ids links) path ≡ v
          → queue_rounds (extend allowed path ns)
            < rounds (2 * length links) (unseen (target_ids links) path)
      go zero e = rw (extend-nil allowed path ns e k) (unfold queue_rounds in rounds-pos _ _)
      go (suc u) e = rw e (
          unfold rounds in
          omega (
            arith,
            queue_rounds-extend allowed path ns u (omega arith) k,
            mul-le-mul_right (rounds (2 * length links) u) few,
          ))

pub link_exists-target_ids :
    (links : List ForceGraphLink) (j m : String)
    → link_exists links j m ≡ true
    → contains m (target_ids links) ≡ true
unfolding link_exists
link_exists-target_ids [] j m h = h
link_exists-target_ids (link ∷ links) j m h = ground (arith, link_exists-target_ids links j m)

module _ (links : List ForceGraphLink) where
  -- A round that replaces a path by its extensions lowers the count.
  pub rounds-extend-lt :
      (allowed : String → Bool) (item : Item)
      → queue_rounds links
          (extend allowed item.path (neighbors (build_adjacency_list links) item.node_id))
        < path_rounds links item.path
  rounds-extend-lt allowed item =
      queue_rounds-extend-lt links allowed item.path _ (length-neighbors links item.node_id) (λ n h.
        link_exists-target_ids links item.node_id n
          (rw (← contains-build_adjacency_list links item.node_id n) h))

  pub queue_rounds-start :
      {A : Type 0} (source_id : String) (nothing : A)
      → queue_rounds links (start source_id nothing).queue ≤ search_budget links source_id
  unfolding start queue_rounds search_budget
  queue_rounds-start source_id nothing = omega arith

  module _ {A : Type 0} (stop : A → Bool) (visit : Item → Search A → Search A) where
    -- A round queues less than its item was worth.
    abbrev pub Shrinks : Type 0
    Shrinks =
        (item : Item) (s : Search A)
        → queue_rounds links (visit item s).queue
          < path_rounds links item.path + queue_rounds links s.queue

    pub search_loop_ends :
        Shrinks
        → (fuel : ℕ) (s : Search A) → queue_rounds links s.queue ≤ fuel
        → (found : A) × (search_loop stop visit fuel s ≡ some found)
    unfolding search_loop queue_rounds
    search_loop_ends shrinks zero s h = elim (List-cases s.queue) [
      | inl empty ↦ (s.found, rw (empty, search_loop))
      | inr (item, rest, e) ↦
          absurd (omega (arith, ap (queue_rounds links) e, path_rounds-pos links item.path))
    ]
    search_loop_ends shrinks (suc fuel) s h = elim (List-cases s.queue) [
      | inl empty ↦ (s.found, rw (empty, search_loop))
      | inr (item, rest, e) ↦
          let left = record s { queue = rest } in
          let (found, ends) =
            search_loop_ends shrinks fuel (visit item left)
              (omega (arith, shrinks item left, ap (queue_rounds links) e)) in
          elim (Bool-cases (stop s.found)) [
            | inl full ↦ (s.found, rw (e, search_loop) (rw full))
            | inr more ↦ (found, rw (e, search_loop) (rw more ends))
          ]
    ]

    -- An invariant of the rounds holds at the end, where the queue is empty or the loop stopped.
    pub search_loop_rule {κ} :
        (P : Search A → Type κ)
        → ((item : Item) (rest : List Item) (s : Search A)
            → s.queue ≡ item ∷ rest
            → stop s.found ≡ false
            → P s
            → P (visit item (record s { queue = rest })))
        → (fuel : ℕ) (s : Search A) (found : A) → P s
        → search_loop stop visit fuel s ≡ some found
        → (t : Search A) × P t × (t.found ≡ found) × ((t.queue ≡ []) ⊎ (stop t.found ≡ true))
    unfolding search_loop
    search_loop_rule P keep zero s found p h = (s, p, ground arith, ground arith)
    search_loop_rule P keep (suc fuel) s found p h = elim (List-cases s.queue) [
      | inl empty ↦ (s, p, ground arith, inl empty)
      | inr (item, rest, e) ↦ elim (Bool-cases (stop s.found)) [
        | inl full ↦ (s, p, ground arith, inr full)
        | inr more ↦
            search_loop_rule P keep fuel (visit item (record s { queue = rest })) found
              (keep item rest s e more p) (rw more at (rw (e, search_loop) at h))
      ]
    ]
