-- ===== src/Lib.antt =====
-- A verification library for aiops-bundler, a bundler of AiOperations (an ERC-4337 style relay in Go).
--
-- The program. A client receives operations over JSON-RPC, runs them through a composition of
-- handlers (checks of values, reputation, simulation) and adds them to the mempool. The bundler takes
-- the operations of the mempool in batches through another composition of handlers (sorting, gas
-- limits, gas prices, expiry, deposits, code hashes) and relays what is left. Handlers share a context
-- and remove operations from its batch by their index.
--
-- The library.
--   Base       the names and lemmas that the components share: Boolean tests, lists, integers, maps
--              with numbers for keys, results of fallible calls.
--   AltMempools  pkg/altmempools/directory.go: the exceptions of alternative mempools.
--   Aiop       pkg/aiop: the operation and its derived values; Aiop.Hash its hash, Aiop.Parse the
--              parsing of a map and back (New, MarshalJSON, ToMap).
--   Modules    pkg/modules/context.go and compose.go: the contexts, MarkOpIndexForRemoval and the
--              composition of handlers.
--   Batch      the batch handlers of pkg/modules/batch, gasprice and expire, and PaymasterDeposit of
--              pkg/modules/checks/standalone.go. Batch.Sweep is the loop from the end of a batch that
--              DropExpired and CodeHashes share; Batch.StableSort is sort.SliceStable.
--   Bundler    pkg/bundler/bundler.go and utils.go: a run of the bundler over the mempool and the batch
--              handler (Process). Bundler.Lifecycle is Run and Stop.
--   Checks     pkg/modules/checks: the validations of a new operation and the group that runs them
--              (ValidateOpValues), the code hashes and their store, and in Checks.Simulated SimulateOp.
--   Builder    pkg/modules/builder: the base fee of a bundle, its broadcast and its outcome.
--   Client     pkg/client/client.go: SendAiOperation and EstimateAiOperationGas. Client.Debug is debug.go
--              and rpc.go.
--   Entities   pkg/modules/entities: the counters of entities, their decay, statuses and limits.
--   Errors     pkg/errors/rpc.go.
--   Gas        pkg/gas: Gas.Overhead is overhead.go, Gas.Estimate is EstimateGas, and Gas.Layer2
--              the function of pvg.go for Optimism.
--   JsonRpc    pkg/jsonrpc/handler.go: the checks of a request, the call and the replies to batches.
--   Mempool    pkg/mempool: the queues, and in Mempool.Pool the pool over its database.
--   Relay      pkg/modules/relay/relayer.go, and the suggested fees of pkg/aimiddleware/transaction.
--   Simulation pkg/aimiddleware/simulation and pkg/tracer/types.go: the checks on the trace of a
--              validation. Simulation.Slots is storageslots.go, Simulation.Calls is callstack.go with
--              internal/utils/stack.go, and Simulation.Trace is tracevalidation.go.
--   Start      internal/start/private.go and searcher.go: the handlers of the bundler composed over their
--              stores, and in Start.Receiving those of the client.
-- A function of the source has its name in snake case; where one name would stand for two functions
-- of a component the pool's have a prefix (pool_add, pool_remove). A handler is a function from the
-- context, and the stored data that it writes, to its result. Each component's Examples has its tests.
--
-- Numbers. big.Int values are natural numbers, since no operation modelled here makes a negative one
-- but for the balances of PaymasterDeposit, which are integers. Int64 of a nonce and the int64
-- arithmetic of EstimateGas keep their wrap-around. Counters of the reputation are never negative. A
-- float64 of a JSON text is its bit pattern, and a storage slot the number that its text stands for.
--
-- Loops are structural over the batch or the map. The binary searches of EstimateGas run on a fuel of
-- 64, which is more halvings than a range of int64 has; its retries run on a fuel of 8, one more than
-- the seven that the source allows. The loop over estimates of the relayer and of the builder client has
-- no bound in the source, and its fuel is arbitrary.
--
-- Parameters. What the code calls in other packages is an argument: the node (code, deposits,
-- simulations, traces), keccak and abi packing, the formats of go-ethereum and mapstructure, errgroup's
-- Wait, the sorted sets, the failures of badger's transactions, the order in which Go runs over a map.
-- What is assumed of them is a named hypothesis or a record of laws, and each has an instance in the
-- Examples.
--
-- Not modelled: the client's lookups and the gas function for Arbitrum, which are left for later; the
-- calls of a node behind the simulation, generated contract bindings, ABI plumbing, tracer scripts,
-- telemetry, configuration, logging and start-up, which have no logic of their own.
-- The calls of Run and Stop are steps of a relation, in any order. Elsewhere goroutines are
-- modelled only where their results meet; the mempool's calls are taken one at a time.
pub mod Aiop
pub mod AltMempools
pub mod Base
pub mod Batch
pub mod Builder
pub mod Bundler
pub mod Checks
pub mod Client
pub mod Entities
pub mod Errors
pub mod Gas
pub mod JsonRpc
pub mod Mempool
pub mod Modules
pub mod Relay
pub mod Simulation
pub mod Start
