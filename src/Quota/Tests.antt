-- ===== src/Quota/Tests.antt =====
-- Runs of internal/quota/ceiling.go, and the properties at concrete histories.
use ocu_mcp_gateway.Base.{
  ◌≡◌, ◌↔◌, ◌≤◌, refl, List, [], ◌∷◌, pos, negsuc, Str, lookup, insert, str_eq, err,
}
use ocu_mcp_gateway.Quota.{
  Event, acquires, releases, step, run, start, in_flight, acquire, release, ceiling_exceeded,
}
use ocu_mcp_gateway.Quota.Held.{held}
use ocu_mcp_gateway.Quota.Invariant.{entry, run_counts, acquire_refused_iff}

abbrev caller : Str
caller = 1 ∷ 2 ∷ []

-- Two acquisitions under a limit of 2, one given back twice, and one more.
abbrev history : List Event
history = acquires caller ∷ acquires caller ∷ releases 0 ∷ releases 0 ∷ acquires caller ∷ []

history_counts : in_flight (run (start (pos 2)) history).ceiling caller ≡ pos 2
unfolding run step start acquire release str_eq lookup insert
history_counts = refl

unlimited : (run (start (negsuc 0)) history).ceiling.counts ≡ []
unfolding run step start acquire release
unlimited = refl

run_counts_example :
    let s = run (start (pos 2)) history in
    (lookup caller s.ceiling.counts ≡ entry (held caller s.grants)) × (held caller s.grants ≤ 2)
run_counts_example = run_counts 1 history caller

acquire_refused_iff_example :
    let s = run (start (pos 2)) history in
    (acquire s.ceiling caller ≡ err ceiling_exceeded) ↔ (held caller s.grants ≡ 2)
acquire_refused_iff_example = acquire_refused_iff 1 history caller
