-- ===== src/Confidence/Checks/Verdict.antt =====
-- web/src/lib/confidence.ts, `gateStatusFromChecks`: the verdict and the checks.
use meergate.Base.{ℕ, max, ◌≡◌, refl, ap, List, [], ◌∷◌, ◌++◌, filter, Any, ◌≤◌, ◌↔◌, true, arith}
use meergate.Confidence.{ConfidenceStatus, ready, watch, risky, blocked, Severity, critical, info}
use meergate.Confidence.Checks.{
  GateCheck, GateCheckStatus, pass, fail, is_known, is_empty, gate_status_from_checks,
}

-- How bad a verdict is: unknown tells nothing.
abbrev pub badness : ConfidenceStatus → ℕ
badness ConfidenceStatus.unknown = 0
badness ready = 1
badness watch = 2
badness risky = 3
badness blocked = 4

-- How bad one check is.
abbrev pub check_badness : GateCheckStatus → Severity → ℕ
check_badness GateCheckStatus.unknown s = 0
check_badness pass s = 1
check_badness fail info = 2
check_badness fail Severity.warning = 3
check_badness fail critical = 4

-- The badness of the worst check, 0 if there is none.
abbrev pub worst : List GateCheck → ℕ
worst [] = 0
worst (c ∷ cs) = max (check_badness c.status c.severity) (worst cs)

-- Checks of which none is known have none that failed.
nothing_known : (cs : List GateCheck) → is_empty cs ≡ true → cs ≡ []
nothing_known [] h = refl
nothing_known (c ∷ cs) h = cc

gate_status-cons :
    (c : GateCheck) (cs : List GateCheck)
    → badness (gate_status_from_checks (c ∷ cs))
      ≡ max (check_badness c.status c.severity) (badness (gate_status_from_checks cs))
unfolding gate_status_from_checks
gate_status-cons c cs = ground (arith, nothing_known (filter is_known cs))

gate_status-worst_step :
    (c : GateCheck) (cs : List GateCheck)
    → badness (gate_status_from_checks cs) ≡ worst cs
    → badness (gate_status_from_checks (c ∷ cs)) ≡ worst (c ∷ cs)
gate_status-worst_step c cs h = omega (arith, gate_status-cons c cs)

-- The verdict is as bad as the worst of the checks, and unknown checks count for nothing.
pub gate_status-worst : (cs : List GateCheck) → badness (gate_status_from_checks cs) ≡ worst cs
unfolding gate_status_from_checks
gate_status-worst [] = refl
gate_status-worst (c ∷ cs) = gate_status-worst_step c cs (gate_status-worst cs)

worst-append : (cs ds : List GateCheck) → worst (cs ++ ds) ≡ max (worst cs) (worst ds)
worst-append [] ds = omega arith
worst-append (c ∷ cs) ds = omega (arith, worst-append cs ds)

-- The verdict on two groups of checks together is the worse of the verdicts on each.
pub gate_status-append :
    (cs ds : List GateCheck)
    → badness (gate_status_from_checks (cs ++ ds))
      ≡ max (badness (gate_status_from_checks cs)) (badness (gate_status_from_checks ds))
gate_status-append cs ds = omega (
  arith,
  gate_status-worst (cs ++ ds),
  gate_status-worst cs,
  gate_status-worst ds,
  worst-append cs ds,
)

-- Some check failed that is critical.
abbrev pub HasCriticalFailure : List GateCheck → Type 0
HasCriticalFailure cs = Any (λ c. (c.status ≡ fail) × (c.severity ≡ critical)) cs

any_of_worst : (cs : List GateCheck) → 4 ≤ worst cs → HasCriticalFailure cs
any_of_worst [] h = absurd (omega arith)
any_of_worst (c ∷ cs) h = ground (arith, any_of_worst cs)

worst_of_any : (cs : List GateCheck) → HasCriticalFailure cs → 4 ≤ worst cs
worst_of_any [] h = elim h [ ]
worst_of_any (c ∷ cs) h = ground (arith, worst_of_any cs)

blocked_of_badness : (s : ConfidenceStatus) → 4 ≤ badness s → s ≡ blocked
blocked_of_badness s h = ground arith

pub blocked_iff :
    (cs : List GateCheck) → (gate_status_from_checks cs ≡ blocked) ↔ HasCriticalFailure cs
blocked_iff cs = (
  λ e. any_of_worst cs (omega (arith, gate_status-worst cs, ap badness e)),
  λ a.
      blocked_of_badness (gate_status_from_checks cs)
        (omega (arith, gate_status-worst cs, worst_of_any cs a)),
)
