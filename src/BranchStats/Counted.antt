-- ===== src/BranchStats/Counted.antt =====
-- What workers record, one atomic addition at a time, and how often they recorded it.
use flow_routine.Prelude.{
  ℕ, zero, suc, ◌+◌, ◌≡◌, refl, ap, ◌∙◌, inl, inr, Bool, List, [], ◌∷◌, ◌++◌, arith, ◌==◌,
  if◌then◌else◌, Bool-cases, length,
}
use flow_routine.BranchStats.{
  RouteShard, RouteStats, empty_shard, record_selection, record_total, record_outcome, modify_at,
  on_shard,
}
use flow_routine.BranchStats.Sums.{plus, one_selection, one_total, one_outcome}

-- An atomic addition of a worker: a selection of a route, and the two of a request.
pub data Event : Type 0 where
  selected : (route_index worker_index : ℕ) → Event
  begun : (route_index worker_index : ℕ) → Event
  ended : (success : Bool) (route_index worker_index : ℕ) → Event

unfoldable pub record_event : Event → List RouteStats → List RouteStats
record_event (Event.selected route worker) = on_shard record_selection route worker
record_event (Event.begun route worker) = on_shard record_total route worker
record_event (Event.ended ok route worker) = on_shard (record_outcome ok) route worker

-- The latest event comes first.
unfoldable pub record_all : List Event → List RouteStats → List RouteStats
record_all [] stats = stats
record_all (event ∷ earlier) stats = record_event event (record_all earlier stats)

-- A call of `recordRequest`.
pub record Request : Type 0 where
  pub success : Bool
  pub route_index : ℕ
  pub worker_index : ℕ

-- The interleavings of any number of calls: each adds to its total first and to its outcome later.
-- The calls in the list have done only the first.
pub data Recorded : List Request → List Event → Type 0 where
  idle : Recorded [] []
  select :
      {unfinished : List Request} {history : List Event} (route worker : ℕ)
      → Recorded unfinished history
      → Recorded unfinished (Event.selected route worker ∷ history)
  begin :
      {unfinished : List Request} {history : List Event} (r : Request)
      → Recorded unfinished history
      → Recorded (r ∷ unfinished) (Event.begun r.route_index r.worker_index ∷ history)
  end :
      {history : List Event} (before after : List Request) (r : Request)
      → Recorded (before ++ r ∷ after) history
      → Recorded (before ++ after) (Event.ended r.success r.route_index r.worker_index ∷ history)

-- How many of the calls are for the route.
unfoldable pub calls_for : ℕ → List Request → ℕ
calls_for i [] = 0
calls_for i (r ∷ rest) =
    let later = calls_for i rest in if i == r.route_index then later + 1 else later

-- How often each thing happened to a route.
unfoldable pub count_event : ℕ → Event → RouteShard
count_event i (Event.selected route worker) = if i == route then one_selection else empty_shard
count_event i (Event.begun route worker) = if i == route then one_total else empty_shard
count_event i (Event.ended ok route worker) = if i == route then one_outcome ok else empty_shard

unfoldable pub count_all : ℕ → List Event → RouteShard
unfolding count_event
count_all i [] = empty_shard
count_all i (event ∷ earlier) = plus (count_event i event) (count_all i earlier)

pub length-modify_at {ℓ} :
    {A : Type ℓ} (f : A → A) (n : ℕ) (xs : List A) → length (modify_at f n xs) ≡ length xs
unfolding modify_at
length-modify_at f n [] = refl
length-modify_at f zero (x ∷ rest) = refl
length-modify_at f (suc n) (x ∷ rest) = ap suc (length-modify_at f n rest)

length-record_event :
    (e : Event) (stats : List RouteStats) → length (record_event e stats) ≡ length stats
unfolding record_event on_shard
length-record_event (Event.selected j w) stats = length-modify_at _ j stats
length-record_event (Event.begun j w) stats = length-modify_at _ j stats
length-record_event (Event.ended ok j w) stats = length-modify_at _ j stats

pub length-record_all :
    (history : List Event) (stats : List RouteStats)
    → length (record_all history stats) ≡ length stats
unfolding record_all
length-record_all [] stats = refl
length-record_all (e ∷ earlier) stats =
    length-record_event e (record_all earlier stats) ∙ length-record_all earlier stats

calls_for-append :
    (i : ℕ) (before after : List Request) (r : Request)
    → calls_for i (before ++ r ∷ after) ≡ (
        if i == r.route_index
        then calls_for i (before ++ after) + 1
        else calls_for i (before ++ after))
unfolding calls_for
calls_for-append i [] after r = refl
calls_for-append i (x ∷ before) after r =
    let later = calls_for-append i before after r in ground (arith, later)

-- The requests that began are those that ended and those that are unfinished.
pub Recorded-balanced :
    {unfinished : List Request} {history : List Event} (i : ℕ)
    → Recorded unfinished history
    → (count_all i history).total
      ≡ (count_all i history).success + (count_all i history).failed + calls_for i unfinished
unfolding count_all count_event calls_for
Recorded-balanced i idle = refl
Recorded-balanced i (select {unfinished} {history} route worker h) =
    let earlier = Recorded-balanced i h in ground (arith, earlier)
Recorded-balanced i (begin {unfinished} {history} r h) =
    let earlier = Recorded-balanced i h in ground (arith, earlier)
Recorded-balanced i (end {history} before after r h) =
    let earlier = Recorded-balanced i h in
    let counted = calls_for-append i before after r in
    elim (Bool-cases r.success) [
      | inl e ↦ rw e (ground (arith, earlier, counted))
      | inr e ↦ rw e (ground (arith, earlier, counted))
    ]
