-- ===== src/Plan/Cycles/Counts.antt =====
-- internal/engine/execution_plan.go: the counts of `executionCycleNode`.
use flow_routine.Prelude.{
  ℕ, zero, suc, ◌+◌, ◌<◌, ◌≡◌, refl, sym, ◌∙◌, subst, inl, inr, Bool, true, false, none, List, [],
  ◌∷◌, ◌++◌, arith, ltb, ◌==◌, if◌then◌else◌, ltb→lt, ==_iff, Bool-cases, length, get_or, set,
  replicate, length-set, get_or-set,
}
use flow_routine.Plan.Graph.{targets_of}
use flow_routine.Plan.Graph.Paths.{In, Edge}
use flow_routine.Plan.Graph.Visit.{Marked, AllBelow}
use flow_routine.Plan.Cycles.{count_of, raise_targets, raise_all, zero_nodes, first_positive}

abbrev pub bit : Bool → ℕ
bit b = if b then 1 else 0

-- How often a node stands in a list.
abbrev pub occurrences : ℕ → List ℕ → ℕ
occurrences x [] = 0
occurrences x (y ∷ rest) = bit (y == x) + occurrences x rest

pub occurrences-append :
    (x : ℕ) (xs ys : List ℕ) → occurrences x (xs ++ ys) ≡ occurrences x xs + occurrences x ys
occurrences-append x [] ys = omega arith
occurrences-append x (y ∷ xs) ys = omega (arith, occurrences-append x xs ys)

pub In-occurrences : (x : ℕ) (xs : List ℕ) → In x xs → 0 < occurrences x xs
In-occurrences x [] i = absurd i
In-occurrences x (y ∷ xs) (inl e) = ground (arith, e)
In-occurrences x (y ∷ xs) (inr i) = omega (arith, In-occurrences x xs i)

pub occurrences-In : (x : ℕ) (xs : List ℕ) → 0 < occurrences x xs → In x xs
occurrences-In x [] h = absurd (omega (arith, h))
occurrences-In x (y ∷ xs) h = elim (Bool-cases (y == x)) [
  | inl e ↦ inl (sym ((==_iff y x).0 e))
  | inr e ↦ inr (occurrences-In x xs (ground (arith, h, e)))
]

-- The edges to x from nodes that are not marked.
unfoldable pub open_in : List Bool → List (List ℕ) → ℕ → ℕ
open_in [] adjacency x = 0
open_in (b ∷ v) [] x = 0
open_in (b ∷ v) (ts ∷ adjacency) x = (if b then 0 else occurrences x ts) + open_in v adjacency x

pub open_in-set :
    (v : List Bool) (adjacency : List (List ℕ)) (c x : ℕ)
    → length v ≡ length adjacency
    → c < length v
    → get_or v c false ≡ false
    → open_in (set v c true) adjacency x + occurrences x (targets_of adjacency c)
      ≡ open_in v adjacency x
unfolding open_in
open_in-set [] adjacency c x size h e = absurd (omega (arith, h))
open_in-set (b ∷ v) [] c x size h e = absurd (omega (arith, size))
open_in-set (b ∷ v) (ts ∷ adjacency) zero x size h e = ground arith
open_in-set (b ∷ v) (ts ∷ adjacency) (suc c) x size h e =
    omega (arith, open_in-set v adjacency c x (omega (arith, size)) (omega (arith, h)) e)

pub open_in-zero :
    (v : List Bool) (adjacency : List (List ℕ)) (x a : ℕ)
    → length v ≡ length adjacency
    → open_in v adjacency x ≡ 0
    → Edge adjacency a x
    → Marked v a
unfolding open_in
open_in-zero [] [] x a size e edge = absurd edge
open_in-zero [] (ts ∷ adjacency) x a size e edge = absurd (omega (arith, size))
open_in-zero (b ∷ v) [] x a size e edge = absurd edge
open_in-zero (true ∷ v) (ts ∷ adjacency) x zero size e edge = refl
open_in-zero (false ∷ v) (ts ∷ adjacency) x zero size e edge =
    absurd (omega (arith, In-occurrences x ts edge, e))
open_in-zero (b ∷ v) (ts ∷ adjacency) x (suc a) size e edge =
    open_in-zero v adjacency x a (omega (arith, size)) (omega (arith, e)) edge

pub open_in-positive :
    (v : List Bool) (adjacency : List (List ℕ)) (x : ℕ)
    → 0 < open_in v adjacency x
    → (a : ℕ) × Edge adjacency a x × (get_or v a false ≡ false) × (a < length adjacency)
unfolding open_in
open_in-positive [] adjacency x h = absurd (omega (arith, h))
open_in-positive (b ∷ v) [] x h = absurd (omega (arith, h))
open_in-positive (true ∷ v) (ts ∷ adjacency) x h =
    let (a, edge, free, inside) = open_in-positive v adjacency x (omega (arith, h)) in
    (suc a, edge, free, omega (arith, inside))
open_in-positive (false ∷ v) (ts ∷ adjacency) x h = elim (Bool-cases (ltb 0 (occurrences x ts))) [
  | inl some_edge ↦
      (0, occurrences-In x ts (ltb→lt 0 (occurrences x ts) some_edge), refl, omega arith)
  | inr no_edge ↦
      let (a, edge, free, inside) = open_in-positive v adjacency x (ground (arith, h, no_edge)) in
      (suc a, edge, free, omega (arith, inside))
]

pub length-raise_targets : (ts counts : List ℕ) → length (raise_targets ts counts) ≡ length counts
unfolding raise_targets
length-raise_targets [] counts = refl
length-raise_targets (t ∷ ts) counts =
    length-raise_targets ts (set counts t (count_of counts t + 1))
    ∙ length-set counts t (count_of counts t + 1)

raise_targets_lem :
    (ts counts : List ℕ) (x : ℕ)
    → AllBelow (length counts) ts
    → count_of (raise_targets ts counts) x ≡ count_of counts x + occurrences x ts
unfolding raise_targets
raise_targets_lem [] counts x below = omega arith
raise_targets_lem (t ∷ ts) counts x (inside, below) =
    let raised = count_of counts t + 1 in
    let later =
      raise_targets_lem ts (set counts t raised) x (rw (length-set counts t raised) below) in
    let here = get_or-set counts t x raised 0 inside in ground (arith, later, here)

abbrev pub AllLists : ℕ → List (List ℕ) → Type 0
AllLists n [] = Unit {0}
AllLists n (ts ∷ rest) = AllBelow n ts × AllLists n rest

pub length-raise_all :
    (adjacency : List (List ℕ)) (counts : List ℕ)
    → length (raise_all adjacency counts) ≡ length counts
unfolding raise_all
length-raise_all [] counts = refl
length-raise_all (ts ∷ rest) counts =
    length-raise_all rest (raise_targets ts counts) ∙ length-raise_targets ts counts

pub raise_all_lem :
    (adjacency : List (List ℕ)) (counts : List ℕ) (x : ℕ)
    → AllLists (length counts) adjacency
    → count_of (raise_all adjacency counts) x
      ≡ count_of counts x + open_in (replicate (length adjacency) false) adjacency x
unfolding raise_all open_in
raise_all_lem [] counts x below = omega arith
raise_all_lem (ts ∷ rest) counts x (here, below) = omega (
  arith,
  raise_all_lem rest (raise_targets ts counts) x (rw (length-raise_targets ts counts) below),
  raise_targets_lem ts counts x here,
)

occurrences-zero_nodes_before :
    (k : ℕ) (counts : List ℕ) (x : ℕ) → x < k → occurrences x (zero_nodes k counts) ≡ 0
unfolding zero_nodes
occurrences-zero_nodes_before k [] x h = refl
occurrences-zero_nodes_before k (c ∷ counts) x h =
    ground (arith, occurrences-zero_nodes_before (k + 1) counts x (omega (arith, h)))

pub occurrences-zero_nodes :
    (k : ℕ) (counts : List ℕ) (j : ℕ)
    → j < length counts
    → occurrences (k + j) (zero_nodes k counts) ≡ bit (count_of counts j == 0)
unfolding zero_nodes
occurrences-zero_nodes k [] j h = absurd (omega (arith, h))
occurrences-zero_nodes k (c ∷ counts) zero h =
    ground (arith, occurrences-zero_nodes_before (k + 1) counts (k + 0) (omega arith))
occurrences-zero_nodes k (c ∷ counts) (suc j) h =
    let later = occurrences-zero_nodes (k + 1) counts j (omega (arith, h)) in
    let same : k + 1 + j ≡ k + suc j = omega arith in
    let moved : occurrences (k + suc j) (zero_nodes (k + 1) counts) ≡ bit (count_of counts j == 0) =
      subst (λ i. occurrences i (zero_nodes (k + 1) counts) ≡ bit (count_of counts j == 0)) same
        later in
    ground (arith, moved)

pub zero_nodes-below :
    (k : ℕ) (counts : List ℕ) (x : ℕ) → In x (zero_nodes k counts) → x < k + length counts
unfolding zero_nodes
zero_nodes-below k [] x i = absurd i
zero_nodes-below k (c ∷ counts) x i = elim (Bool-cases (c == 0)) [
  | inl e ↦ elim (rw e at i) [
    | inl here ↦ omega (arith, here)
    | inr later ↦ omega (arith, zero_nodes-below (k + 1) counts x later)
  ]
  | inr e ↦ omega (arith, zero_nodes-below (k + 1) counts x (rw e at i))
]

-- The answer is -1 exactly if no count is left.
pub first_positive-none :
    (k : ℕ) (counts : List ℕ)
    → ((j : ℕ) → j < length counts → count_of counts j ≡ 0)
    → first_positive k counts ≡ none
unfolding first_positive
first_positive-none k [] h = refl
first_positive-none k (c ∷ counts) h =
    ground (arith, h 0, first_positive-none (k + 1) counts (λ j i. h (suc j) (omega (arith, i))))

pub none-first_positive :
    (k : ℕ) (counts : List ℕ) → first_positive k counts ≡ none → (j : ℕ) → count_of counts j ≡ 0
unfolding first_positive
none-first_positive k [] e j = refl
none-first_positive k (c ∷ counts) e zero = ground (arith, e)
none-first_positive k (c ∷ counts) e (suc j) =
    none-first_positive (k + 1) counts (ground (arith, e)) j
