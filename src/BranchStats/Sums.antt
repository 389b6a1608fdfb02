-- ===== src/BranchStats/Sums.antt =====
-- The counters of a shard, up to the wrap-around of the words.
use flow_routine.Prelude.{◌+◌, ◌≡◌, refl, ◌∙◌, Bool, true, false, arith}
use flow_routine.BranchStats.{RouteShard, word, record_selection, record_total, record_outcome}

abbrev pub plus : RouteShard → RouteShard → RouteShard
plus a b = record {
  selections = a.selections + b.selections;
  total = a.total + b.total;
  success = a.success + b.success;
  failed = a.failed + b.failed;
}

-- The same 64-bit words.
pub record Same (a b : RouteShard) : Type 0 where
  pub selections : word a.selections ≡ word b.selections
  pub total : word a.total ≡ word b.total
  pub success : word a.success ≡ word b.success
  pub failed : word a.failed ≡ word b.failed

abbrev pub one_selection : RouteShard
one_selection = record { selections = 1; total = 0; success = 0; failed = 0 }

abbrev pub one_total : RouteShard
one_total = record { selections = 0; total = 1; success = 0; failed = 0 }

abbrev pub one_outcome : Bool → RouteShard
one_outcome true = record { selections = 0; total = 0; success = 1; failed = 0 }
one_outcome false = record { selections = 0; total = 0; success = 0; failed = 1 }

-- A change adds d to every shard.
abbrev pub Adds : (RouteShard → RouteShard) → RouteShard → Type 0
Adds change d = (shard : RouteShard) → Same (change shard) (plus d shard)

pub record_selection-Adds : Adds record_selection one_selection
unfolding record_selection
record_selection-Adds s = record {
  selections = omega arith;
  total = omega arith;
  success = omega arith;
  failed = omega arith;
}

pub record_total-Adds : Adds record_total one_total
unfolding record_total
record_total-Adds s = record {
  selections = omega arith;
  total = omega arith;
  success = omega arith;
  failed = omega arith;
}

pub record_outcome-Adds : (ok : Bool) → Adds (record_outcome ok) (one_outcome ok)
unfolding record_outcome
record_outcome-Adds true s = record {
  selections = omega arith;
  total = omega arith;
  success = omega arith;
  failed = omega arith;
}
record_outcome-Adds false s = record {
  selections = omega arith;
  total = omega arith;
  success = omega arith;
  failed = omega arith;
}

pub Same-refl : (a : RouteShard) → Same a a
Same-refl a = record { selections = refl; total = refl; success = refl; failed = refl }

pub Same-trans : (a b c : RouteShard) → Same a b → Same b c → Same a c
Same-trans a b c p q = record {
  selections = p.selections ∙ q.selections;
  total = p.total ∙ q.total;
  success = p.success ∙ q.success;
  failed = p.failed ∙ q.failed;
}

pub Same-plus : (d a b : RouteShard) → Same a b → Same (plus d a) (plus d b)
Same-plus d a b p = record {
  selections = omega (arith, p.selections);
  total = omega (arith, p.total);
  success = omega (arith, p.success);
  failed = omega (arith, p.failed);
}
