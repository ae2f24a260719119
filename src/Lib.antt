-- ===== src/Lib.antt =====
-- The StatefulMigration controller: a Kubernetes operator that moves a pod with its state to another
-- node by a checkpoint, while its message queue is duplicated and replayed.
--
-- The parts and the files that model them
--
--   api/v1alpha1/types.go                        Api: the resource, its phases and its queues' names
--   api/v1alpha1/deepcopy.go                     DeepCopy: the methods, over DeepCopy/Store, a
--                                                memory that values may share
--   internal/messaging/client.go                 Messaging: the broker's interface, a record of
--                                                operations over a state
--   internal/messaging/mock.go                   Messaging/Mock: the in-memory broker
--   internal/messaging/rabbitmq.go               Messaging/Rabbitmq: the AMQP client
--   internal/controller/statefulmigration_controller.go
--     Reconcile, its loop                        Controller/Reconcile
--     handlePending, handleCheckpointing, …      Controller/Phases: one file for each handler, with
--                                                the parts of it as definitions of their own
--     handleIdentitySwap and handleSwap…         Controller/Swap: one file for each sub-phase
--     transitionPhase, failMigration,
--     recordPhaseTiming, pollingBackoff          Controller/Helpers
--     findAgentPodIP, callAgent…                 Controller/Agent
--   internal/kubelet/client.go                   Kubelet: the call of the checkpoint API
--   internal/checkpoint/image.go                 Checkpoint: the image of an archive
--   cmd/ms2m-agent/main.go                       NodeAgent: Load (localLoad, registryPush and their
--                                                handlers), Upload (ServeHTTP), Server (main)
--   cmd/checkpoint-transfer/main.go              Transfer: Send has both transfers and main
--
-- How they interact. The API server stores a StatefulMigration with a phase. `reconcile` reads it
-- and runs the handler of its phase, which calls the broker, the kubelet, the node agent and the API
-- server, writes the status, and asks to be called again, at once or after a delay; the loop reads the
-- object again and goes on with the next phase. In the phase Finalizing a second loop,
-- `identity_swap`, does the same with the sub-phases of a swap: the source pod is replaced by one of
-- its own name on the target node, and the queues are cut over, by a short replay (Cutoff) or by the
-- Exchange-Fence protocol: a buffer queue takes the messages while both queues drain. The checkpoint's
-- way to the registry or to the target node is by the agent's server on a node, which the controller
-- calls with JSON bodies (Json), or by a Job that runs the transfer program or the agent's command.
--
-- The model. `Cluster.Env` is all that the controller calls, over a state of the world that it may
-- change in any way; the theorems that need more say so by `SoleWriter` (nobody else writes the
-- phase, the API server answers what it stores, and a read finds that, where a lagging cache of the
-- manager's client could find an older status). An action (Controller/Monad) passes on the
-- object in memory, the world, and a log of the calls that may have changed something, newest first,
-- each with its success; it goes on with a value or returns early from its handler. Controller/Calls
-- has an action for every call. The agent and the transfer program are actions of the same kind (Flow)
-- over a `Host` of their own: the node's files, skopeo, the registry and HTTP are its operations, and
-- the effects on the node, or what was sent, are the log.
--   - A nil map and an empty one are the same, and so are a nil and an empty slice. Numbers of
--     replicas and messages are natural numbers, ReplayCutoffSeconds is an integer.
--   - Times are nanoseconds by `Env.now`. The texts of times, durations and numbers are made and read
--     by parameters of `Env`. A time that Go reads twice within a statement is read once.
--   - The text of a JSON body is written and read by parameters (`write_json`, `read_json`); what is
--     read of it is a list of members, of which the last one of a key counts; keys that differ from a
--     field's name in case only are not read. A body that is no object is an error of the decoder, and
--     so is a body that is no multipart form. The form's other fields are a dictionary.
--   - The goroutine that writes the form of a direct transfer runs to its end before the POST; as each
--     of its steps and the POST may fail, every pair of outcomes of the two occurs.
--   - `filepath.Join` is modelled for a storage directory that is already clean. Reading an archive
--     into an image does not change the node.
--   - The floating-point numbers of the pre-fence drain are a parameter (`Float64`).
--   - A write into a nil map panics in Go, and here it makes the map. The writes of the sub-phases that
--     do not make one first (handleSwapReCheckpoint, handleSwapFenceRollback) come after
--     handleFinalizing or handleSwapParallelDrain has made it.
--   - `%q` is a pair of quotation marks, `%w` the text of the error. Logging is left out.
--   - Go's random order over a map is the order of the association list; the loops over maps have
--     results that do not depend on it, as Controller/Labels shows for each key.
--   - In the memory of the deep copies an object or an array gets its address when it is filled, a
--     slice refers to a whole array, and what the types of Kubernetes refer to is in cells of their own.
--   - The two loops that Go does not bound are on fuel, and `none` says that it ran out. The
--     phases need nine rounds at most, if no read is stale (Controller/Settling/Loop). The loop of
--     the swap has no bound, as Controller/Livelock shows; the theorems on it hold for every fuel.
--
-- The proofs. Controller/Keeps has the rules for invariants of actions; Controller/PhaseOrder uses
-- them on every handler, one file for each group, and PhaseOrder/SubPhases and PhaseOrder/SwapRun
-- have the order of the sub-phases of a swap; Controller/Settling does the same for what handlers
-- return, up to the end of the loop over the phases; Controller/Routing reads off the log of calls
-- which queues are bound for sure and which may be, and Controller/Tracking holds that against the
-- broker behind the RabbitMQ client; Controller/Gates, Controller/Choices and Controller/Labels
-- compare decisions and loops with plain statements; Messaging/Rabbitmq/Laws is about the RabbitMQ
-- client. NodeAgent/Laws and NodeAgent/Answers tell by the effects what a request did,
-- NodeAgent/Cleanup what stays on the disk; Checkpoint/Laws, Kubelet/Laws and Transfer/Laws are
-- about those programs alone. Controller/Delivery puts the agent's server at the other end of the
-- controller's calls, and Controller/JobRuns runs the programs of the Jobs on the arguments that
-- the controller gives them. DeepCopy/Sharing says what a copy owes, and its other modules put the
-- copies of the types together from those of their parts. Tests runs the theorems at concrete
-- worlds.
--
-- Not modelled: cmd/main.go and the registration with the manager (flags, schemes and calls of
-- controller-runtime), and the evaluation scripts. What a merge patch sends is not computed: the
-- call takes the base and the object. Third-party code, such as go-containerregistry, client-go,
-- skopeo and the AMQP library, is a parameter wherever it is called.
pub mod Base
pub mod DeepCopy
pub mod Flow
pub mod Api
pub mod Messaging
pub mod Json
pub mod Cluster
pub mod Checkpoint
pub mod Kubelet
pub mod NodeAgent
pub mod Transfer
pub mod Controller
pub mod Tests
