-- ===== src/Suites/Order.antt =====
-- The order in which a flow's steps run, `sortNodes` of
-- test-suites/execution-plan-compiler.service.ts. The two orders of texts that it sorts by,
-- `localeCompare` and that of `sort()`, are parameters.
pub mod Counting
pub mod Invariant
pub mod Sorted
pub mod Topological
pub mod Cycles
use testing_environment.Common.{
  ℕ, zero, suc, ◌+◌, String, Bool, true, false, not, Option, none, some, List, [], ◌∷◌, ◌++◌, map,
  length, ◌==◌, if◌then◌else◌, str_eq,
}
use testing_environment.Common.Result.{Result, ok, err}

pub record FlowEdge : Type 0 where
  pub source : String
  pub target : String

-- A count, which a flow with repeated ids may take below zero.
pub data ℤ : Type 0 where
  pos : ℕ → ℤ
  negsuc : ℕ → ℤ

abbrev pub decrement : ℤ → ℤ
decrement (pos zero) = negsuc 0
decrement (pos (suc n)) = pos n
decrement (negsuc n) = negsuc (suc n)

abbrev pub is_zero : ℤ → Bool
is_zero (pos n) = n == 0
is_zero (negsuc n) = false

-- `incomingCount`: the number of edges to a step.
unfoldable pub incoming : List FlowEdge → String → ℕ
incoming [] t = 0
incoming (e ∷ es) t = (if str_eq e.target t then 1 else 0) + incoming es t

-- `outgoing`: the targets of the edges from a step.
unfoldable pub outgoing : List FlowEdge → String → List String
outgoing [] s = []
outgoing (e ∷ es) s = if str_eq e.source s then e.target ∷ outgoing es s else outgoing es s

-- `Array.prototype.sort`, which is stable.
module _ {A : Type 0} (le : A → A → Bool) where
  unfoldable pub insert : A → List A → List A
  insert x [] = x ∷ []
  insert x (y ∷ ys) = if le x y then x ∷ y ∷ ys else y ∷ insert x ys

  unfoldable pub sort : List A → List A
  unfolding insert
  sort [] = []
  sort (x ∷ xs) = insert x (sort xs)

pub data FlowError : Type 0 where
  cycle : FlowError

pub record State (Node : Type 0) : Type 0 where
  pub counts : String → ℤ
  pub queue : List Node
  pub ordered : List Node

module _ {Node : Type 0} (id : Node → String) where
  abbrev pub ids : List Node → List String
  ids = map id

  -- `nodeMap.get`: of two steps with one id, the later.
  unfoldable pub node_map : List Node → String → Option Node
  node_map [] key = none
  node_map (n ∷ ns) key = elim (node_map ns key) [
    | none ↦ if str_eq (id n) key then some n else none
    | some m ↦ some m
  ]

  unfoldable pub roots : List FlowEdge → List Node → List Node
  unfolding incoming
  roots edges [] = []
  roots edges (n ∷ ns) = if incoming edges (id n) == 0 then n ∷ roots edges ns else roots edges ns

module _ {Node : Type 0} (id : Node → String) (locale_le : String → String → Bool) where
  abbrev pub by_id : Node → Node → Bool
  by_id a b = locale_le (id a) (id b)

  abbrev pub enqueue : Option Node → List Node → List Node
  enqueue none queue = queue
  enqueue (some n) queue = sort by_id (queue ++ n ∷ [])

  -- The inner loop, over the targets of the step that was taken from the queue.
  unfoldable pub release :
      List Node → List String → (String → ℤ) → List Node → (String → ℤ) × List Node
  unfolding node_map sort
  release nodes [] counts queue = (counts, queue)
  release nodes (t ∷ ts) counts queue =
      let next = decrement (counts t) in
      release nodes ts (λ k. if str_eq t k then next else counts k)
        (if is_zero next then enqueue (node_map id nodes t) queue else queue)

module _ {Node : Type 0} (id : Node → String) (locale_le code_le : String → String → Bool) where
  -- One turn of the loop; it has ended when the queue is empty.
  unfoldable pub turn : List Node → List FlowEdge → State Node → State Node
  unfolding release outgoing sort
  turn nodes edges s = elim s.queue [
    | [] ↦ s
    | n ∷ queue ↦
        let (counts, queue') =
          release id locale_le nodes (sort code_le (outgoing edges (id n))) s.counts queue in
        record { counts = counts; queue = queue'; ordered = s.ordered ++ n ∷ [] }
  ]

  unfoldable pub drain : ℕ → List Node → List FlowEdge → State Node → State Node
  unfolding turn
  drain zero nodes edges s = s
  drain (suc k) nodes edges s = drain k nodes edges (turn nodes edges s)

  abbrev pub start : List Node → List FlowEdge → State Node
  start nodes edges = record {
    counts = λ k. pos (incoming edges k);
    queue = sort (by_id id locale_le) (roots id edges nodes);
    ordered = [];
  }

  -- The loop ends after as many turns as there are steps.
  unfoldable pub sort_nodes : List Node → List FlowEdge → Result FlowError (List Node)
  unfolding drain incoming roots sort
  sort_nodes nodes edges =
      let end = drain (length nodes) nodes edges (start nodes edges) in
      if length end.ordered == length nodes then ok end.ordered else err cycle
