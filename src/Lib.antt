-- ===== src/Lib.antt =====
-- A model of the parts of AIZO that decide, and what is proved of them.
--
-- AIZO is a stack of layers. Adapters for protocols (layer1) connect it to machines; a catalog of
-- entities and their relationships (layer2) says what there is; metrics, logs and traces (layer3) are
-- collected; a store keeps desired and actual states (layer4); containers are run (layer5); and rules
-- turn events into proposals for actions (layer6). Beside them stand access control (security) and
-- policies with rate limits (policy). The parts below work on their own state. Most methods hold a lock
-- for their whole, so that a method is one step: a function from the state before to the state after,
-- with the answer. Some call several locked methods one after another, and other calls may come
-- between: the search of the relationship mapper, the registration API (`UpdateState`,
-- `AddCapability`, `AddRelationship`, `Deregister`, `ForceDeregister`) and the reconciliation engine.
-- Their models are runs that no other call comes between. `RestartContainer` is of this kind too; its
-- model takes what other calls do between its two.
--
-- The files, by the source that they model:
-- - Layer1/CircuitBreaker: layer1/circuit_breaker.go. `execute` is `Execute`, `allow_request`,
--   `record_success`, `record_failure`, `reset` and `stats` are the methods of those names.
-- - Layer1/Idempotency: layer1/idempotency.go. `cleanup` is one tick of `cleanupLoop`.
-- - Layer1/Adapter: layer1/adapter.go, the counters and `RetryWithBackoff`.
-- - Layer1/Registry: layer1/registry.go. The adapters behind the interface are a parameter.
-- - Layer1/Mesh: Protocol and Payloads are layer1/mesh_protocol.go, Node is the serving part of
--   layer1/mesh_node.go, Transfer is `SendFile` of layer1/mesh_adapter.go, and Coordinator is
--   layer1/mesh_coordinator.go. Transfer/Link joins the two sides of a connection.
-- - Security/Rbac: security/rbac.go. A role is a string, as in the source.
-- - Security/Auth: security/auth.go, the tokens of the mesh.
-- - Policy/RateLimiter and Policy/Engine: policy/rate_limiter.go, policy/engine.go, policy/types.go.
-- - Layer2/Entity, Layer2/Index, Layer2/Catalog: layer2/entity.go, layer2/catalog.go, and
--   `UpdateState` of layer2/registration.go. Entities are shared, so the catalog has a heap.
-- - Layer2/Graph: layer2/relationship_mapper.go, `ValidateDependencies` and `detectCycle`, which call
--   the catalog.
-- - Layer2/Impact: the same file, `GetImpactedEntities` and `collectImpactedEntities`.
-- - Layer2/Registration: layer2/registration.go, `Deregister` and `ForceDeregister`, which call
--   both, `AddCapability`, `AddRelationship` and the validation of requests.
-- - Layer3/EventStream: layer3/event_stream.go. Its goroutine is a step, and so is each reception by a
--   subscriber, so their interleavings with the calls are sequences of steps.
-- - Layer4/StateStore: layer4/state_store.go and its types. States are shared, so it has a heap too.
-- - Layer4/StateHistory: layer4/state_history.go, on the states of the state store.
-- - Layer4/ChangeDetector and Layer4/Reconciliation: `DetectDrift` of layer4/change_detector.go and
--   `Reconcile` of layer4/reconciliation_engine.go, which calls the state store. What reconcilers act on
--   is a machine, of any type.
-- - Layer5/ContainerRuntime and Layer5/NetworkManager: layer5/container_runtime.go and
--   layer5/network_manager.go, with their types of layer5/types.go.
-- - Layer6/Rule and Layer6/RuleEngine: layer6/rule.go, layer6/rule_engine.go and their types.
-- - Layer6/Proposals: layer6/manager.go, the life of a proposal. The goroutines are part of the
--   state, so their interleavings with the calls are sequences of steps.
-- - Prelude: tests on native numbers, lists, Go maps as association lists, lists by id, integers.
-- - Tests: concrete runs.
--
-- Conventions. `time.Now()` is an argument in nanoseconds, and a duration an integer. The order in
-- which Go walks a map is the order of the association list, so a theorem for all maps is one for all
-- orders. Counters and versions are natural numbers: they start at 0 and go up by one, and reaching
-- 2 ^ 63 is out of reach. A nil error is `none`.
--
-- Parameters: float64 with its order and arithmetic, formatted texts, the values of an `interface{}`,
-- `filepath.Match`, `strings.EqualFold`, `strings.Split`, `strings.TrimSpace`, `strings.Contains`,
-- `sort.Slice` and `sort.Strings` (they rearrange, and the result is in order), gob, the operating
-- system of a mesh node, the adapters behind their interface, and
-- the database behind the state store, which is only written after it was loaded.
--
-- Fuel: the search for circular dependencies goes through the catalog, and gets as much fuel as there
-- are registered entities and two more. Every call marks an id that was not marked, and at most one
-- of the ids met on a path is not registered; that this is enough is proved. All other loops are
-- structural.
--
-- Not modelled: network and process input and output (the protocol adapters, dialling and discovery in
-- the mesh, the real container runtimes, TLS), the SQL statements, reading and writing of YAML, the
-- detectors of relationships, most of layer3, the images and volumes, the managers of the layers, the
-- learning, and the text interface.
pub mod Prelude
pub mod Layer1
pub mod Security
pub mod Policy
pub mod Layer2
pub mod Layer3
pub mod Layer4
pub mod Layer5
pub mod Layer6
pub mod Tests
