-- ===== src/Lib.antt =====
-- Verification library of the container runtime security agent.
--
-- The agent decodes kernel events from a ring buffer, filters them, matches rules, correlates signals,
-- and routes each match to an alert, a simulated or a real enforcement, or a network block. Modelled here
-- is the path from the raw event to its effects, with the engine that evaluates compiled rules, the caches
-- that attribute a process to its container, and the parsers of DNS messages and of TLS ClientHello messages.
--
-- Prelude: the shared names; Go maps as association lists (Prelude.GoMap), results that may fail or panic
--   (Prelude.Outcome), byte slices with their bounds checks (Prelude.Slices), Go strings as byte lists
--   (Prelude.Text), membership in lists (Prelude.Members) and an interface for float64 (Prelude.Float).
-- Ebpf.Event, Ebpf.Decode: pkg/ebpf/types.go, the event record and `DecodeEvent`, one function for the
--   header and one for each member of the payload union.
-- Ebpf.Fields: pkg/ebpf/types.go, the accessors of an event and the tables of known paths, ports and programs.
-- Ebpf.Dns, Ebpf.DnsMessage: pkg/ebpf/dns.go; one function is an iteration of the loop of `parseDNSName`.
-- Ebpf.Suspicious: `CheckSuspiciousDNS` there; float64 arithmetic is an interface, and the order in which the
--   map of frequencies is walked is an argument.
-- Ebpf.Sni: pkg/ebpf/types.go, `ExtractTLSClientHelloSNI` with one function for each field it passes, and the
--   checks of server names. The lengths of the record and of the handshake, which have no effect, are left out.
-- Ebpf.Filter: pkg/ebpf/filter.go, `RingBufferFilter` with one function for each method; the random
--   sample is an argument of `should_pass`.
-- Rules: the severity order of pkg/rules/types.go. Rules.Types, Rules.Exceptions, Rules.Engine: pkg/rules/engine.go,
--   where a compiled condition is a function and the walk of the map of replacements is an argument.
--   Rules.Inference: `compileRule` there. Rules.Checks: pkg/rules/compiler.go, the expression tree and its checks.
-- Pipeline.Event: the enriched event of pkg/pipeline/pipeline.go and the rule match of pkg/rules/types.go.
-- Pipeline.RateLimiter, Pipeline.Response: pkg/pipeline/response.go. `enforce` is `Enforce` with its seven
--   rules in order; the kernel's answers are a function of all calls made so far; the escalation goroutine
--   is a pending entry that `escalate` runs at any later step.
-- Pipeline.AuditLog: pkg/pipeline/enforcement_log.go.
-- Pipeline.Coalescer: pkg/pipeline/coalescer.go.
-- Pipeline.Route: `routeDecision`, its emitters and `handleNetworkBlock` of pkg/pipeline/pipeline.go.
-- Pipeline.Exceptions: pkg/pipeline/exceptions.go.
-- Network: pkg/enforcement/network.go; calls of the kernel-side updater are recorded.
-- Correlate: pkg/correlate/correlate.go; the order of a walk of the rule map and the readings of the clock
--   are arguments.
-- Enrichment.Lru, Enrichment.Cgroup, Enrichment.Manager: pkg/enrichment/container.go. The doubly linked list of a
--   cache is held as its keys from the head to the tail.
-- Tests: concrete inputs.
--
-- Loops are structural recursion on a list, but for four of the DNS parser and two of the TLS parser, which run
-- on fuel, and spent fuel is an error of its own: the loop of `parseDNSName` has fuel of one more than the
-- message's length, since each iteration marks another offset of the message; the loops over labels, over the
-- strings of a record, over extensions and over names have one more than the bytes' length, since an iteration
-- passes at least one byte; the search of `findDNSSubstringOffset` has two more, since its offset grows to one
-- behind the message at most. A Go string is a byte list where the code takes it apart and a String where it is
-- only compared; `strings.ToLower` and `strings.TrimSpace` are those of ASCII. Times are in nanoseconds and are
-- arguments. Mutexes make the methods atomic, so a concurrent run is a sequence of steps. Counters of type
-- uint64 wrap around; int and int64 counters are taken as unbounded.
--
-- Not modelled: logs, metrics, JSON, goroutine life cycles, the parsers of conditions and of rule files, the
-- anomaly scoring, the CRI and Kubernetes clients, the loaders, the AI connector, webhooks, the CLI and the
-- agent's wiring.
pub mod Prelude
pub mod Ebpf
pub mod Rules
pub mod Pipeline
pub mod Network
pub mod Correlate
pub mod Enrichment
pub mod Tests
