-- ===== src/Lib.antt =====
-- A verification library of mycedrive-k8s, which moves stateful pods of Kubernetes between nodes.
--
-- The operator steers: a Migration goes through its phases in the reconciler, which arms pods in a
-- shared registry, deletes the source pod and watches the registry for what the Execution Agents
-- report over HTTP. The agents freeze the pod's volume in overlay layers and stream them, with the
-- checkpoint, from the source to the destination. A history keeps the timings of every migration.
--
-- Which file models what:
-- - Base holds numbers, maps with text keys, lists and Go's formatting, shared by the rest.
-- - Registry models operator/pkg/registry/registry.go. A `Registry` is the map under the lock, and each
--   method one function of it: Register is `register`, MarkCheckpointReady `mark_checkpoint_ready`.
--   Registry/Ops names the calls, Registry/Pod is one pod by itself.
-- - RestApi models operator/pkg/restapi: RestApi/Agents the agents' endpoints of handlers.go and the
--   routing of server.go, RestApi/Migrate POST /migrate, RestApi/Queries handlers_query.go and
--   RestApi/Metrics handlers_history.go.
--   A handler takes a decoded body, or none where it does not decode, and gives the answer with the
--   registry after it.
-- - Api models the custom resources of operator/api/v1alpha1, in the fields that the operator reads or
--   writes.
-- - Controller models operator/internal/controller/migration_controller.go and workload.go. A pass is
--   `reconcile`; the API server and the clock are the parameter `Cluster`, which answers each call by
--   all calls before it, so any answer and any error may come at any time. The calls are kept in order, and Controller/Audit says when a call is in order.
-- - History models operator/pkg/history/history.go, with RecordTransition as `record_transition`;
--   Snapshot and Summarize are in History/Report.
-- - Controller/Mirror models migratableworkload_controller.go: a pass is `reconcile_workload`, and
--   SeedRegistry `seed_registry`; Controller/Mirror/Restart has both together, one after the other. Controller/Seeding models
--   SeedHistory.
-- - Transfer models the frame header of go-agent/utils/transfer.go, byte by byte; Transfer/Exchange the
--   sending and receiving of frames. A connection is the bytes that the receiver reads and whether it can
--   write the acknowledgement; a frame handler is a function on a state of its own. Transfer/Extract has
--   ExtractTarGz and safeJoin, over the entries of an archive.
-- - Overlay models LayerManager of go-agent/overlay/volume.go. The file system, mount, umount and the
--   destination are the parameter `Environment`: any call may work, fail, or do its work and fail. isSent
--   is `has_marker`, a call like the others, and `is_sent` the marker itself.
-- - Dmtcp models go-agent/dmtcp/handler.go over the parameter `Shell`: the commands, the checkpoint files
--   and the clock. Checkpoint is `take_checkpoint`; Dmtcp/Machine has the state machine of the
--   methods, and Dmtcp/Steps runs of them.
-- - Env models the settings of go-agent/utils/system.go.
-- - Agent models go-agent/endcontainer.go over Overlay and Dmtcp, and Agent/Target go-agent/main.go over
--   Transfer/Exchange, Overlay and Dmtcp. What they meet outside are the parameters `Host` and `Site`.
--   The actions of Base/Action keep the state that an error leaves; Base/Triple and Base/Invariant have
--   the rules for what holds after them.
--
-- Bounds and fuel: `evict_fuel` of History runs for as many rounds as the order has keys, and each
-- round drops one, so it never stops early; `itoa_fuel` of Base/Text has more rounds than its number
-- has digits; `wait_rounds` of Dmtcp has two rounds more than half seconds fit into the timeout.
-- Numbers that Go wraps are wrapped here: `to_int32` for the sync round and the port of a
-- status, `to_uint32` for the fields of a frame. Times are nanoseconds since Go's zero time.
--
-- Not modelled: the operator's main and the dashboard, which wire libraries; generated deep copies;
-- what gzip and tar make of files, which is a payload here; the choice of the agents' arguments. Calls
-- of the registry by agents during one pass of a reconciler are left out: a pass sees the registry as it
-- stood when it began, with its own changes.
pub mod Base
pub mod Registry
pub mod RestApi
pub mod History
pub mod Api
pub mod Controller
pub mod Transfer
pub mod Overlay
pub mod Env
pub mod Dmtcp
pub mod Agent
