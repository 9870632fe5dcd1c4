-- ===== src/Decision/Summary.antt =====
-- internal/policyengine/evaluate.go: summarize and namedCounts, the counts of a batch of decisions.
-- A Go map is the list of its entries, which namedCounts sorts. The counts are at most the lengths
-- of slices, so that an int holds them.
use Prim.Native.Nat.{ℕ}
use watchlist_platform.Base.{suc, Bool, List, [], ◌∷◌, length, if◌then◌else◌}
use watchlist_platform.Base.Sort.{sort}
use watchlist_platform.Base.Text.{Text, eq_text, lt_text}
use watchlist_platform.Decision.Types.{Decision}
use watchlist_platform.Decision.Evaluate.{disposition_text, route_text}

pub record NamedCount : Type 0 where
  pub name : Text
  pub count : ℕ

pub record DecisionBatchSummary : Type 0 where
  pub total_decisions : ℕ
  pub disposition_counts : List NamedCount
  pub review_route_counts : List NamedCount
  pub reason_code_counts : List NamedCount
  pub blocker_counts : List NamedCount

-- `values[key]++`
unfoldable pub increment : Text → List NamedCount → List NamedCount
unfolding eq_text
increment key [] = record { name = key; count = 1 } ∷ []
increment key (e ∷ es) =
    let rest = increment key es in
    if eq_text e.name key then record e { count = suc e.count } ∷ es else e ∷ rest

unfoldable pub increment_each : List Text → List NamedCount → List NamedCount
unfolding increment
increment_each [] es = es
increment_each (k ∷ ks) es = increment_each ks (increment k es)

unfoldable pub name_precedes : NamedCount → NamedCount → Bool
unfolding lt_text
name_precedes a b = lt_text a.name b.name

unfoldable pub named_counts : List NamedCount → List NamedCount
unfolding sort name_precedes
named_counts values = sort name_precedes values

-- the four maps of summarize
pub record Counts : Type 0 where
  pub dispositions : List NamedCount
  pub routes : List NamedCount
  pub reasons : List NamedCount
  pub blockers : List NamedCount

unfoldable pub count_decision : Decision → Counts → Counts
unfolding increment increment_each
count_decision d c = record {
  dispositions = increment (disposition_text d.disposition) c.dispositions;
  routes = increment (route_text d.review_route) c.routes;
  reasons = increment_each d.reason_codes c.reasons;
  blockers = increment_each d.escalation_blockers c.blockers;
}

unfoldable pub count_decisions : List Decision → Counts → Counts
unfolding count_decision
count_decisions [] c = c
count_decisions (d ∷ ds) c = count_decisions ds (count_decision d c)

abbrev pub no_counts : Counts
no_counts = record { dispositions = []; routes = []; reasons = []; blockers = [] }

unfoldable pub summarize : List Decision → DecisionBatchSummary
unfolding count_decisions named_counts
summarize ds =
    let c = count_decisions ds no_counts in
    record {
      total_decisions = length ds;
      disposition_counts = named_counts c.dispositions;
      review_route_counts = named_counts c.routes;
      reason_code_counts = named_counts c.reasons;
      blocker_counts = named_counts c.blockers;
    }
