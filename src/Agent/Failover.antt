-- ===== src/Agent/Failover.antt =====
-- The choice of an exit of internal/agent/failover.go: a smooth weighted round robin over the
-- candidates of a rule, with a cooldown for those that failed and one caller to probe each of them.
pub mod Round
pub mod Best
pub mod Chosen
pub mod Excluded
pub mod Scores
pub mod Dial
pub mod Examples
use traffic_forwarding_panel.Prelude.{
  ℕ, ◌+◌, ◌-◌, ◌*◌, ◌%◌, ◌^◌, ◌&&◌, ◌||◌, Bool, true, false, not, Option, none, some, List, [], ◌∷◌,
  ◌++◌, any, ltb, leb, ◌==◌, if◌then◌else◌,
}
use traffic_forwarding_panel.Prelude.Assoc.{Assoc, lookup, insert}

-- The bytes of a string, and the number that stands for it as the key of a map: bijective base 256,
-- so that equal numbers are equal strings.
abbrev pub Text : Type 0
Text = List ℕ

unfoldable pub code : Text → ℕ
code [] = 0
code (b ∷ bs) = 1 + b + 256 * code bs

abbrev pub bar : ℕ
bar = 124

-- An `int` is its 64 bits in two's complement, read as a natural number.
abbrev pub word : ℕ
word = 2 ^ 64

abbrev pub positive : ℕ → Bool
positive w = not (w == 0) && ltb w (2 ^ 63)

-- `a < b` of two ints
abbrev pub below : ℕ → ℕ → Bool
below a b = ltb ((a + 2 ^ 63) % word) ((b + 2 ^ 63) % word)

-- `max(1, w)`
abbrev pub at_least_one : ℕ → ℕ
at_least_one w = if positive w then w else 1

pub record FailoverPolicy : Type 0 where
  pub max_fail : ℕ
  pub cooldown_sec : ℕ

-- The parts of an `EffectivePolicy` that the choice reads.
pub record EffectivePolicy : Type 0 where
  pub hash : Text
  pub failover : Option FailoverPolicy

-- `RouteCandidate`; `tunnel` and the texts that are only passed on are numbers, with 0 for `""`
-- and for nil.
pub record RouteCandidate : Type 0 where
  pub id : Text
  pub exit_group_id : ℕ
  pub target : Text
  pub transport : ℕ
  pub tunnel : ℕ
  pub weight : ℕ
  pub effective_policy : Option EffectivePolicy
  pub billing_multiplier : ℕ

pub record Backend : Type 0 where
  pub target : Text
  pub weight : ℕ
  pub disabled : Bool

-- The parts of a `contract.Rule` that the choice reads.
pub record Rule : Type 0 where
  pub id : Text
  pub target : Text
  pub transport : ℕ
  pub tunnel : ℕ
  pub exit_group_id : ℕ
  pub effective_policy : Option EffectivePolicy
  pub billing_multiplier : ℕ
  pub route_candidates : List RouteCandidate
  pub backends : List Backend

-- `until` counts nanoseconds, and 0 is the zero time.
pub record BackendState : Type 0 where
  pub current : ℕ
  pub failures : ℕ
  pub until : ℕ
  pub probing : Bool

abbrev pub fresh : BackendState
fresh = record { current = 0; failures = 0; until = 0; probing = false }

unfoldable pub policy_hash : Option EffectivePolicy → Text
policy_hash none = []
policy_hash (some p) = p.hash

unfoldable pub backend_key : Rule → Text → ℕ
backend_key r target = code (r.id ++ (bar ∷ policy_hash r.effective_policy ++ (bar ∷ target)))

abbrev pub plain : Rule → Text → ℕ → RouteCandidate
plain r target weight = record {
  id = target;
  exit_group_id = 0;
  target = target;
  transport = r.transport;
  tunnel = r.tunnel;
  weight = weight;
  effective_policy = r.effective_policy;
  billing_multiplier = r.billing_multiplier;
}

unfoldable pub enabled : Rule → List Backend → List RouteCandidate
enabled r [] = []
enabled r (x ∷ xs) = if x.disabled then enabled r xs else plain r x.target x.weight ∷ enabled r xs

unfoldable pub from_backends : Rule → List Backend → List RouteCandidate
from_backends r [] = plain r r.target 1 ∷ []
from_backends r (x ∷ xs) = enabled r (x ∷ xs)

unfoldable pub candidates : Rule → List RouteCandidate
candidates r = elim r.route_candidates [ [] ↦ from_backends r r.backends | c ∷ cs ↦ c ∷ cs ]

abbrev pub member : ℕ → List ℕ → Bool
member k = any (λ j. k == j)

-- What a key holds, `&backendState{}` where there is none.
abbrev pub state_at : ℕ → Assoc BackendState → BackendState
state_at k m = elim (lookup k m) [ none ↦ fresh | some b ↦ b ]

abbrev pub resting : ℕ → BackendState → Bool
resting now b = ltb now b.until || b.probing

-- The variables of the loop of `selectCandidate`. `best` points into the map: it is a key, with the
-- candidate that is `selected`.
pub record Scan : Type 0 where
  pub states : Assoc BackendState
  pub total : ℕ
  pub best : Option (ℕ × RouteCandidate)

-- The new best, in the states after the candidate's score has grown.
unfoldable pub contest :
    ℕ
    → RouteCandidate
    → Assoc BackendState
    → Option (ℕ × RouteCandidate)
    → Option (ℕ × RouteCandidate)
contest k c m none = some (k, c)
contest k c m (some p) =
    if below (state_at p.0 m).current (state_at k m).current then some (k, c) else some p

unfoldable pub raise : ℕ → RouteCandidate → Scan → Scan
raise k c s =
    let b = state_at k s.states in
    let score = (b.current + at_least_one c.weight) % word in
    let m = insert k (record b { current = score }) s.states in
    record {
      states = m;
      total = (s.total + at_least_one c.weight) % word;
      best = contest k c m s.best;
    }

unfoldable pub touch : ℕ → Scan → Scan
touch k s = elim (lookup k s.states) [
  | none ↦ record s { states = insert k fresh s.states }
  | some b ↦ s
]

unfoldable pub weigh : ℕ → ℕ → RouteCandidate → Scan → Scan
weigh now k c s = if resting now (state_at k s.states) then s else raise k c s

unfoldable pub visit : Rule → List ℕ → ℕ → RouteCandidate → Scan → Scan
visit r tried now c s =
    if member (code c.id) tried
    then s
    else weigh now (backend_key r c.id) c (touch (backend_key r c.id) s)

unfoldable pub scan_candidates : Rule → List ℕ → ℕ → List RouteCandidate → Scan → Scan
scan_candidates r tried now [] s = s
scan_candidates r tried now (c ∷ cs) s = scan_candidates r tried now cs (visit r tried now c s)

abbrev pub recovering : BackendState → Bool
recovering b = positive b.failures && not (b.until == 0)

abbrev pub chosen : ℕ → BackendState → BackendState
chosen total b = record b {
  current = (b.current + (word - total)) % word;
  probing = if recovering b then true else b.probing;
}

unfoldable pub settle : Scan → Option RouteCandidate × Assoc BackendState
settle s = elim s.best [
  | none ↦ (none, s.states)
  | some p ↦ (some p.1, insert p.0 (chosen s.total (state_at p.0 s.states)) s.states)
]

unfoldable pub select_candidate :
    Rule → List ℕ → ℕ → Assoc BackendState → Option RouteCandidate × Assoc BackendState
select_candidate r tried now m =
    settle
      (scan_candidates r tried now (candidates r) (record { states = m; total = 0; best = none }))

-- `now.Add(d)` of a duration of 64 bits
abbrev pub add_duration : ℕ → ℕ → ℕ
add_duration now d = if ltb d (2 ^ 63) then now + d else now - (word - d)

abbrev pub rule_failover : Rule → Option FailoverPolicy
rule_failover r = elim r.effective_policy [ none ↦ none | some p ↦ p.failover ]

abbrev pub max_fail_of : Rule → ℕ
max_fail_of r = elim (rule_failover r) [ none ↦ 1 | some f ↦ at_least_one f.max_fail ]

abbrev pub cooldown_of : Rule → ℕ
cooldown_of r = elim (rule_failover r) [ none ↦ 10 | some f ↦ f.cooldown_sec ]

unfoldable pub marked : Rule → Bool → ℕ → BackendState → BackendState
marked r failed now b =
    if not failed
    then record b { probing = false; failures = 0; until = 0 }
    else let failures = (b.failures + 1) % word in
      record b {
        probing = false;
        failures = failures;
        until =
            if below failures (max_fail_of r)
            then b.until
            else add_duration now (at_least_one (cooldown_of r) * 10 ^ 9 % word);
      }

unfoldable pub mark_candidate : Rule → Text → Bool → ℕ → Assoc BackendState → Assoc BackendState
mark_candidate r id failed now m = elim (lookup (backend_key r id) m) [
  | none ↦ m
  | some b ↦ insert (backend_key r id) (marked r failed now b) m
]
