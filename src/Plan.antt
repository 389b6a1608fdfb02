-- ===== src/Plan.antt =====
-- internal/engine/execution_plan.go and execution_runtime.go: the graph of an execution plan.
-- A compiled step is a tagged struct in Go; it is a data type here, with the fields that its kind
-- uses. A target of -1 is `none`. Steps are named by their index.
pub mod Graph
pub mod Hash
pub mod Routes
pub mod Iteration
pub mod Forward
pub mod Cycles
pub mod Dominators
pub mod Targets
pub mod Scenario
pub mod Loops
pub mod Branches
pub mod Requests
pub mod Instructions
pub mod Compile
use flow_routine.Prelude.{
  ℕ, zero, suc, ◌+◌, ◌-◌, ◌*◌, ◌/◌, ◌%◌, ◌^◌, ◌≤◌, ◌<◌, min, max, ◌≡◌, refl, sym, ap, ◌∙◌, subst,
  ◌≢◌, ◌↔◌, ◌⊎◌, inl, inr, Bool, true, false, ◌&&◌, ◌||◌, not, Option, none, some, List, [], ◌∷◌,
  ◌++◌, map, arith, ltb, leb, ◌==◌, if◌then◌else◌, ltb→lt, lt→ltb, leb→le, ==_iff, tests,
  Bool-cases, Option-cases, length, get_elem?, get_or, set, replicate, take, drop, length-append,
  length-set, length-replicate, length-map,
}
use Prim.Native.String.{String}

pub record CompiledExecutionRoute : Type 0 where
  pub id : String
  pub name : String
  pub target : ℕ
  pub weight : ℕ
  pub metrics_index : ℕ
  pub scope_key : String

pub data Instruction : Type 0 where
  scenario : (scenario_index : ℕ) (next : Option ℕ) → Instruction
  branch : (routes : List CompiledExecutionRoute) (route_weight : ℕ) (join_target : ℕ) → Instruction
  join : (next : Option ℕ) → Instruction
  loop : (body : ℕ) (exit : Option ℕ) (max_iterations : ℕ) → Instruction

pub record CompiledExecutionStep : Type 0 where
  pub id : String
  pub instruction : Instruction

abbrev pub optional_target : Option ℕ → List ℕ
optional_target none = []
optional_target (some t) = t ∷ []

unfoldable pub successors : Bool → Instruction → List ℕ
successors remove_loop_bodies (Instruction.scenario index next) = optional_target next
successors remove_loop_bodies (Instruction.branch routes weight join_target) =
    map (λ r. r.target) routes
successors remove_loop_bodies (Instruction.join next) = optional_target next
successors remove_loop_bodies (Instruction.loop body exit max_iterations) =
    if remove_loop_bodies then optional_target exit else body ∷ optional_target exit

-- `executionAdjacency`.
unfoldable pub execution_adjacency : List CompiledExecutionStep → Bool → List (List ℕ)
unfolding successors
execution_adjacency steps remove_loop_bodies =
    map (λ s. successors remove_loop_bodies s.instruction) steps
