-- ===== src/Agent/Charge.antt =====
-- `TryCreditCharge` of internal/agent/credits.go: a datagram or a chunk of a stream is paid for from
-- the live windows of its rule and direction, and a refill is asked for when they run low.
pub mod Debit
pub mod Admission
mod Examples
use traffic_forwarding_panel.Prelude.{
  ℕ, ◌+◌, ◌-◌, ◌*◌, ◌^◌, ◌&&◌, ◌||◌, min, max, Bool, true, false, not, Option, none, some, List, [],
  ◌∷◌, any, ltb, leb, ◌==◌, if◌then◌else◌,
}
use traffic_forwarding_panel.Agent.Credits.{
  Lease, LiveCredit, credit_window_size, max_tcp_credit_window,
}

-- A second, and 100 ms, in nanoseconds
abbrev pub tcp_credit_idle_timeout : ℕ
tcp_credit_idle_timeout = 10 ^ 9

abbrev pub growth_period : ℕ
growth_period = 10 ^ 8

-- The parts of a `contract.Rule` that a charge reads; `owner` is `limitOwner(r)`.
pub record Rule : Type 0 where
  pub owner : ℕ
  pub tcp : Bool
  pub lease : Option Lease
  pub standby : Option Lease

-- The state under one pool key: the live windows, the adaptive target, and whether a refill is on
-- its way.
pub record Pool : Type 0 where
  pub credits : List LiveCredit
  pub target_size : ℕ
  pub target_last : ℕ
  pub refilling : Bool

-- What the call reads besides: the flags of the store, the instant after the lock, the end of the
-- rule's validity, and whether the queue of the writer takes a request.
pub record Call : Type 0 where
  pub failed : Bool
  pub pause_growth : Bool
  pub now : ℕ
  pub until : ℕ
  pub queue_open : Bool

pub data Outcome : Type 0 where
  admitted storage_unavailable lease_unavailable payload_exceeds credit_unavailable : Outcome

-- `ruleLeases`, without its nil entries
abbrev pub option_list {ℓ} : {A : Type ℓ} → Option A → List A → List A
option_list none xs = xs
option_list (some x) xs = x ∷ xs

unfoldable pub rule_leases : Rule → List Lease
rule_leases r = option_list r.lease (option_list r.standby [])

unfoldable pub largest : List Lease → ℕ
largest [] = 0
largest (l ∷ ls) = max l.bytes (largest ls)

-- Whether a window can pay: it is open, one of the rule's live leases backs it, and it is the
-- account's.
unfoldable pub is_eligible : Rule → ℕ → LiveCredit → Bool
is_eligible r now c =
    not c.closed
    && any (λ l. l.id == c.window.lease && ltb now l.expires) (rule_leases r)
    && c.window.user == r.owner
    && ltb now c.window.until

-- The adaptive growth of the target after real demand on a young window.
unfoldable pub grown : ℕ → LiveCredit → ℕ → ℕ → ℕ
grown now c used target =
    if leb credit_window_size used && ltb now (c.window.started + growth_period)
    then max target (min max_tcp_credit_window (4 * c.window.capacity))
    else target

-- What the first loop gathers: the credit left, the windows that have some, the number of eligible
-- windows, and the target of a refill.
pub record Survey : Type 0 where
  pub remaining : ℕ
  pub spendable : ℕ
  pub eligible : ℕ
  pub target : ℕ

abbrev pub unspent : LiveCredit → ℕ
unspent c = c.window.capacity - c.used

-- One round of the first loop.
unfoldable pub observe : Rule → ℕ → Bool → LiveCredit → Survey → Survey
observe r now adaptive c v =
    if is_eligible r now c
    then record {
      remaining = v.remaining + unspent c;
      spendable = if ltb 0 (unspent c) then v.spendable + 1 else v.spendable;
      eligible = v.eligible + 1;
      target = if adaptive then grown now c c.used (max v.target c.window.capacity) else v.target;
    }
    else v

unfoldable pub survey : Rule → ℕ → Bool → List LiveCredit → Survey → Survey
survey r now adaptive [] v = v
survey r now adaptive (c ∷ cs) v = survey r now adaptive cs (observe r now adaptive c v)

-- What the second loop carries: the windows that still have credit, and the target.
pub record Counters : Type 0 where
  pub spendable : ℕ
  pub target : ℕ

abbrev pub debited : ℕ → LiveCredit → ℕ → LiveCredit
debited now c n = record c { used = c.used + n; last = if ltb 0 n then now else c.last }

abbrev pub counted : ℕ → Bool → LiveCredit → ℕ → Counters → Counters
counted now adaptive c n v = record {
  spendable =
      if ltb 0 (unspent c) && c.used + n == c.window.capacity then v.spendable - 1 else v.spendable;
  target = if ltb 0 n && adaptive then grown now c (c.used + n) v.target else v.target;
}

-- The second loop: each eligible window pays what it can, until nothing is needed.
unfoldable pub debit : Rule → ℕ → Bool → List LiveCredit → ℕ → Counters → List LiveCredit × Counters
debit r now adaptive [] needed v = ([], v)
debit r now adaptive (c ∷ cs) needed v =
    let n = min needed (unspent c) in
    let skip = debit r now adaptive cs needed v in
    let rest = debit r now adaptive cs (needed - n) (counted now adaptive c n v) in
    if not (is_eligible r now c)
    then (c ∷ skip.0, skip.1)
    else if needed - n == 0
    then (debited now c n ∷ cs, counted now adaptive c n v)
    else (debited now c n ∷ rest.0, rest.1)

-- The flag of a refill after the request was queued, or could not be.
unfoldable pub after_refill : Bool → Call → Bool → Bool
after_refill refill call before = if refill then call.queue_open else before

unfoldable pub starting_target : Bool → ℕ → Pool → ℕ
starting_target adaptive now p =
    if adaptive && ltb now (p.target_last + tcp_credit_idle_timeout)
    then max credit_window_size p.target_size
    else credit_window_size

-- The part under the lock. The third component says whether a refill is requested, and of which size.
unfoldable pub charge_pool : Rule → Call → ℕ → Pool → Outcome × Pool × Option ℕ
charge_pool r call n p =
    let adaptive = r.tcp && not call.pause_growth in
    let v = survey r call.now adaptive p.credits (record {
      remaining = 0;
      spendable = 0;
      eligible = 0;
      target = starting_target adaptive call.now p;
    }) in
    let paid =
      debit r call.now adaptive p.credits n
        (record { spendable = v.spendable; target = v.target }) in
    if ltb 0 v.eligible && leb n v.remaining
    then (let size = paid.1.target in
        let refill = ltb paid.1.spendable 2 && ltb (v.remaining - n) size && not p.refilling in
        let kept = adaptive && ltb 0 n in
        (
          admitted,
          record {
            credits = paid.0;
            target_size = if kept then size else p.target_size;
            target_last = if kept then call.now else p.target_last;
            refilling = after_refill refill call p.refilling;
          },
          if refill then some size else none,
        ))
    else (let refill = ltb v.remaining v.target && not p.refilling in
        (
          credit_unavailable,
          record p { refilling = after_refill refill call p.refilling },
          if refill then some v.target else none,
        ))

unfoldable pub try_credit_charge : Rule → Call → ℕ → Pool → Outcome × Pool × Option ℕ
try_credit_charge r call n p =
    if call.failed then (storage_unavailable, p, none) else elim r.lease [
      | none ↦ (lease_unavailable, p, none)
      | some l ↦
          if r.tcp && ltb (largest (rule_leases r)) n
          then (payload_exceeds, p, none)
          else if ltb call.now call.until
          then charge_pool r call n p
          else (lease_unavailable, p, none)
    ]
