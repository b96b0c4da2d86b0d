-- ===== src/Lib.antt =====
-- Traffic Forwarding Panel: a control panel sells traffic to users and hands it to the nodes in
-- leases, and an agent on each node forwards the traffic and accounts for every byte. This library
-- models the parts that decide how much may be forwarded and who pays for it, what the access
-- policies admit, which exit a connection takes, and how UDP packets get from node to node.
--
-- The parts, and how they meet:
--
-- - Contract/Usage: `UsageRecord` and `ValidWindowMetadata` of internal/contract/types.go, the facts that
--   an agent reports and the panel settles.
-- - Commerce/Rate, Commerce/Tables, Commerce/Quota: internal/commerce/quota.go. `Allocate`,
--   `AllocateWithMultiplier`, `AllocateBudgetWithMultiplier`, `LeaseCurrent`, `RetireLease` and
--   `SettleUsage` are functions of the rows of four tables (`Db`). Commerce/Quota/Allocation,
--   Retirement and RoundTrip hold the theorems.
-- - Commerce/Usage: `SettleUsageBatch` of internal/commerce/usage_batch.go, with the part of
--   `BulkCounter` (internal/storage/queries.go) that it relies on: an update that misses a row fails the
--   transaction. Commerce/Usage/Charges and Replay hold the theorems.
-- - Commerce/Duration: internal/commerce/duration.go and `AddMonths` of internal/commerce/service.go, which
--   fix the end of the entitlements that leases are taken from. The calendar is a parameter.
-- - Commerce/Wallet: `post` of internal/commerce/service.go, `trackFunds` and `restoreFunds` of
--   internal/commerce/funding.go on the tables of wallets, funds and the ledger (Tables). Rows,
--   Funds, Loops, Books, Accounts, Sound and Posts follow a posting from the rows it reads to the
--   books it leaves; Pays and Accepts are about payments that the balance covers, Tied about
--   refunds. An amount is an int64 other than the least, whose negation wraps: for that one
--   `new_balance` stops with an error of its own.
-- - Agent/Credits, Agent/Credits/Events: the credit windows of internal/agent/credits.go, with the
--   events `credit_reserve`, `credit_progress` (`validateCreditEvent`, `applyCreditEvent`) and `usage`
--   (`applyEvent` in internal/agent/state.go). `Store` keeps the fields of the durable state and of the
--   live credits that these events read or write.
-- - Agent/Charge: `TryCreditCharge` of internal/agent/credits.go, on the windows of one rule and
--   direction. It spends what the events have reserved.
-- - Agent/Wal: internal/agent/wal.go. `append_events`, `encode_record`, `replay` and
--   `has_following_record` are `appendEvents`, `encodeRecord`, `replay` and `hasFollowingRecord`, on the
--   bytes of the file; Agent/Wal/Crc is CRC-32C. Records, Replay, Recovery, Durable, Writes and
--   Append hold the theorems.
-- - Agent/Failover: internal/agent/failover.go. `select_candidate` is `selectCandidate`, a smooth weighted
--   round robin, and `mark_candidate` is `markCandidate`; Agent/Failover/Dial is `dialCandidates`, which
--   tries the exits of a rule in turn. Round, Best, Chosen, Excluded and Scores, Dial/Fuel,
--   Dial/Safe and Dial/Authorized hold the theorems. An `int` is its 64 bits there.
-- - Agent/Limits: the slots of internal/agent/limits.go. `acquire` and `give_back` are `acquire` and the
--   function that it returns; `Slotted` holds the functions that have not run yet, and `Runs` is any
--   sequence of calls.
-- - Policy/Path: `MatchPath` of internal/policy/match.go, on byte strings; Policy/Path/Glob is the
--   grammar it is compared with.
-- - Policy/Paths: `Paths` of internal/policy/match.go, the spellings of a request path that the globs are
--   tested against. Reduced takes dot segments out one at a time, Spelling compares `canonical` with it.
-- - Policy/Hosts, Policy/Checks: `Host`, `HostPattern`, `MatchHost`, `CheckHost` and `CheckHTTP` of
--   internal/policy/match.go with `ValidServerName` of internal/contract/advanced.go. `CheckHTTP` uses the
--   spellings of Policy/Paths and the globs of Policy/Path.
-- - Policy/Association: the registry of internal/policy/association/registry.go, which admits the UDP
--   datagrams of observed SOCKS5 sessions, with the effects that the observers of observer.go have on it.
--   `Step` lists the critical sections, and `Reaches` is any sequence of them.
-- - Tunnel/Datagram: internal/tunnel/datagram.go, which carries UDP packets between nodes. Sender
--   is `sendPacket`, Datagram itself `accept` and `expireLocked`, Link the rest of a link: `add`,
--   `receive`, `collect`, `Read` and `Close`. Frames, Chunks, Parts, Phases, Delivery, Accept, Runs
--   and Once follow a packet from its frames to the queue; Memory, Held, Flows, Closing and Budget
--   count what a link holds; Sent is about the sender. QUIC is a parameter: what it answers to a
--   frame.
-- - Contract/Money: `ParseAmount` and `FormatAmount` of internal/contract/money.go, on lists of code points.
-- - Prelude/Bytes: slices and big-endian words.
-- - Prelude: the names all files share, association lists (`Assoc`) for Go maps and for tables with a
--   primary key, Boolean tests, integers over the native numbers, and `Fallible` for steps that fail.
--
-- Conventions. An identifier (a string in the program) is a number, because the program only
-- compares identifiers; where it measures or formats one, the model takes the functions of `Texts`,
-- and where the wallet adds or cuts a prefix, those of `Names`. An instant is a number of
-- nanoseconds. An int64 that the program has checked to be at least 0 is a natural number, and the
-- overflow tests are written out; where a conversion can wrap around, `int64` of Prelude/Int says
-- so. A multiplier is a numerator and a denominator, as in `big.Rat`, and a string that does not
-- parse is `none`. A transaction that returns an error leaves no trace, as the callers roll back.
-- Statements that only lock rows do nothing here: transactions and critical sections run one at a
-- time.
--
-- Fuel. The loop of `MatchPath` runs on fuel: (len(path) + 1) * (len(pattern) + 1), since a retry
-- moves its start by a byte and between two retries the pattern gets shorter. An answer `none` would
-- mean that the fuel ran out. The loop of `dialCandidates` runs on one more than the number of candidates
-- of the rule, since each turn puts one more of them into the set of those that were tried, and the last
-- test ends it; without fuel it gives `out_of_fuel`. The loop of `replay` runs on the number of bytes
-- of the log, since each record takes at least 25 of them, and the writes of `appendEvents` on the number
-- of bytes of the batch, since a write takes at least one. The loops
-- of `sendPacket` run on the attempts (the code makes two) and the frames that are left. All other
-- loops recurse on a list.
--
-- Not modelled: the orders and refunds of internal/commerce, which post to the wallet; the files of
-- checkpoints and the other events of internal/agent/state.go; the token bucket and the data plane of
-- internal/agent; the protocol detectors of internal/policy; the send queue, the pool and the handshake
-- of internal/tunnel/datagram.go and the stream carriers of internal/tunnel; the HTTP handlers of
-- internal/platform; payment adapters, storage, configuration and commands. Much of it is I/O, or
-- statements of SQL and goroutines around the parts that are here. Sockets, files, clocks and the
-- database itself are outside of the model.
pub mod Prelude
pub mod Contract
pub mod Commerce
pub mod Agent
pub mod Policy
pub mod Tunnel
