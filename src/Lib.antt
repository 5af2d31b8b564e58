-- ===== src/Lib.antt =====
-- onos-mho: a model of the mobile handover xApp of pkg/ and cmd/, and theorems about it.
--
-- The program subscribes to each E2 node that has the RC service model, reads the node's indications
-- of handovers that UEs ask for, keeps the latest report of each UE in a store, approves the handovers
-- that the store's events report, and sends a control message to the node for each approved one. A
-- gRPC service lists the UEs and counts them by target cell.
--
-- The parts, and the files that model them:
--   Base: lists and texts over native numbers, maps as association lists (Base/Dict), and what a Go
--     call returns (Base/Result): a value, an error, or a panic.
--     Base/Settings: the last of the settings of a field, for what lists of options mean.
--   Store: pkg/store/store.go, and in Store/Types types.go and event.go, in Store/Watching watcher.go.
--     Store/Interface is the interface `Store` with the laws that its callers rely on and what a history
--     of calls is to do, Store/Trace the theorems that follow from these alone, Store/Implements the
--     store behind the interface. Store/Delivery: the writes of `Send` to channels that `Watch` may have
--     closed.
--   Broker/Stream: pkg/broker/stream.go, a buffered stream as a state machine of its writer, its reader
--     and the goroutine between them. Broker/Registry: pkg/broker/broker.go,
--     in Broker/Registry/Reach any sequence of its calls, and in Broker/Registry/Trace what each channel
--     has open after it.
--   Memory: the store with the `MetricValue`s that its entries point to. A pointer is an index, so a
--     write through it is seen by all who hold it.
--   Definition: pkg/definition/def.go. Utils: pkg/utils, with the messages of the service model, their
--     getters, decoders and builders as the records `Ies` and `PduBuilder` of parameters (Utils/Ies).
--     Utils/Control/Laws has as a hypothesis that the getters give back what the builders were given.
--   Monitor: pkg/monitoring/monitor.go, the handler of an indication (`process_indication`), and in
--     Monitor/Loop the goroutine of `Start`. Monitor/Options: options.go, and `NewMonitor`.
--   Controller: pkg/controller/mho.go, one round of `controlHandover`.
--   Southbound/Handover and Southbound/Connections: pkg/southbound/e2/manager.go, one round of
--     `watchMHOChanges`, then `createSubscription`, `getRanFunction` and `watchE2Connections`.
--     Southbound/Forwarding: its `sendIndicationOnStream`, beside the stream that it sends to.
--     Southbound/Setup: its `NewManager`, `Start` and `Stop`. Southbound/Options: options.go beside it.
--   Northbound: pkg/northbound/mho.go, the queries, and in Northbound/Service the service itself; in
--     Northbound/Order the queries on the store's map in any order.
--   Rnib: pkg/rnib/rnib.go. Config: pkg/config/config.go.
--   Manager: pkg/manager/manager.go, with the start of the gRPC server in Manager/Northbound. Command:
--     cmd/onos-mho/onos-mho.go, `main` up to its wait without end.
--   System: how the monitors, the controller and the nodes' watchers run side by side, as a step
--     relation. A handler reads the store in one step and writes in later ones, so every order of
--     reads and writes of different handlers is a run. System/Invariant is what holds in all of them.
--     System/Lifecycle and System/Races: single histories. System/Evolution: what becomes of a value.
--     System/Totality: what the handlers find in the store. System/Queries: the northbound queries on
--     the running system. System/Sending: the goroutines that `Send` starts, which read the map of
--     watchers when they run, beside the handlers, each of which is one step there.
--     System/Pipeline: the stream of one node between its two goroutines, and the monitor that reads
--     from it. System/Node: the same with the goroutine that forwards the node's indications to the
--     stream. System/InOrder: the whole program where each event is delivered before the next report
--     comes; a report leads to three events at most, so three rounds of delivery are enough.
--   Tests: concrete messages, and the theorems applied to them.
--
-- How the code is read: an operation under a mutex is one step, a function from the state that it
-- finds. A method that can fail returns a `Result`; `panic` is a run-time panic, such as a read through
-- nil or past the end of a slice. `int64` values that are printed are exact; `uint64` sums wrap.
--
-- Bounds and fuel: the buffer of a stream holds 10000 indications, as in the code. The digits of `n`
-- are computed with `n + 1` rounds, more than `n` has digits. The search for a RAN parameter runs on
-- fuel, and ends if the fuel is above the depth of the message. The order in which `range` visits a
-- map is that of the association list or an argument.
--
-- Not modelled: logging, contexts beyond their being done, gRPC, TLS, the flag, configuration, topology
-- and E2 libraries beyond the answers of their calls, which are parameters, and the tests under test/
-- with their command cmd/onos-mho-test.
pub mod Base
pub mod Store
pub mod Broker
pub mod Memory
pub mod Definition
pub mod Utils
pub mod Monitor
pub mod Controller
pub mod Southbound
pub mod Northbound
pub mod Rnib
pub mod Config
pub mod Manager
pub mod Command
pub mod System
pub mod Tests
