-- ===== src/Lib.antt =====
-- kamal-proxy, the HTTP and UDP proxy of internal/server: a model of its stateful parts and what
-- holds of them.
--
-- A router keeps a map of services. A request is led to a service by its host and path (the
-- service map), waits there while the service is paused (the pause controller), and is sent to a
-- target by a load balancer; bodies may be buffered on the way (the body buffer). UDP services
-- take ports from a port allocator and keep sessions with their clients. The router changes
-- services by deployments, rollouts and pauses.
--
-- Base: shared names, lists over native numbers, integers, and Go's maps as association lists.
-- Buffer: internal/server/buffer.go. `write`, `read`, `send` and `close` are the methods;
--   `new_buffered_read_closer` with `io_copy` is NewBufferedReadCloser. What the operating system
--   answers is the argument `Disk`. Removing the temporary file is taken to succeed, as its
--   failure is only logged.
-- Buffering: internal/server/response_buffer_middleware.go and request_buffer_middleware.go. What
--   the handler behind the middleware does is a list of `Action`; the client is net/http's writer,
--   which sends an informational status at once and a final one once, and whose writes succeed.
--   Flush is left out.
-- PauseController: internal/server/pause_controller.go. Channels are numbers on a heap. `Wait` is
--   cut at its `select`: `get_wait_state`, then `on_signal` or a time-out; `Signals` interleaves
--   calls and requests as a step relation, `Restore` is about a controller decoded from JSON.
-- PortAllocator: internal/server/port_allocator.go. The map holds addresses of shared allocations,
--   so the allocations stand in a store. The operating system's answers are the argument `Os`, a
--   port that the process holds open being refused. The loops over ports take as fuel one more
--   than the number of ports in the range, which suffices as each round goes at least one port on
--   (`Search`). `Release` has the calls that give ports back; there `none` is a panic.
-- Paths: the path functions of internal/server/service_map.go, over bytes.
-- ServiceMap: the rest of service_map.go. `Bindings`, `Routing`, `Order`, `Availability` and
--   `Coherence` prove what the tables hold, which binding answers, and that conflicts are kept
--   out. slices.SortFunc is the parameter `Sorting`, which sorts by any comparator and is not
--   stable; `Longest` is about the comparator of the code, `Alike` about the TLS options that
--   services take over from others.
--
-- SessionManager: internal/server/session_manager.go. `SessionManager.antt` is what RoutePacket
--   calls, `Expiry` the draining policies, the clean-up and the sessions loaded at the start.
--   Targets are addresses on a heap; MD5 is the parameter `Md5`; the decimal digits of a port take
--   as fuel its value plus one, which no number of digits exceeds; the calls of the session store
--   are a log.
--
-- Target: internal/server/target.go. Requests are numbers, and a context is done or not; `Steps`
--   interleaves requests, health checks and drains, each Drain cut at its wait; `Drains` is about
--   what a drain ends, `Errors` about the answers to errors.
--
-- LoadBalancer: internal/server/load_balancer.go. Targets are addresses on a heap. `TargetList`
--   makes the targets of a balancer and waits until they are healthy, given the health checks that
--   complete in time. `Request` has the classification of requests and claimTarget; the text
--   operations on headers are over bytes. `Response` is the response writer that sets the cookie
--   kamal-writer, over a model of what net/http's writer sends. `Rotation`, `Picks` and `Healthy`
--   are about nextTarget and updateHealthyTargets. The operations of time and of cookies enter as
--   the time and as the value of the cookie.
--
-- Rollout: internal/server/rollout_controller.go. float64 is the interface `Float`, of which
--   `IsIeee` says that conversion, product and quotient are monotone on the integers of 64 bits
--   and their shares, as IEEE 754 rounding is. The hash is FNV-1a of 32 bits with its wrap-around
--   written out.
--
-- Service: internal/server/service.go. The map of services holds the name and the options of a
--   service, `Body` the rest of the same object. `Requests` is serviceRequestWithTarget, cut where
--   a request has to wait, and `serve_to_end` the whole of it with the end of the wait; `Draining`
--   is Drain and DrainAll, all drains beginning before any ends; `State` is MarshalJSON and
--   UnmarshalJSON, over the value that is encoded. Which certificates and error pages can be
--   loaded is the argument `Files`; net.SplitHostPort is the argument `split`.
--
-- Router: internal/server/router.go. `deploy_service` and `set_rollout_targets` with what they
--   call are in `Router.antt`, the other calls in `Calls`, requests, certificates and the saved
--   state in `Serving`. Each call runs to its end before the next; what requests and health checks
--   do while targets drain is the argument `meanwhile`. `Created` is about the balancer that a
--   deployment makes, `Calls.Sound` and `Calls.Whole` are about every call, `Deploys` and
--   `Failures` about deployments.
--
-- UdpTarget: internal/server/udp_target.go. What the network answers is the argument `Net`; a
--   channel that is closed twice, which panics, sets `panicked`.
-- UdpDeployment: internal/server/udp_deployment.go. The loops of the waits take fuel and the times
--   at which they wake; `Ends` shows how many rounds are enough. Between the waits a deployment
--   goes on by phases.
-- UdpServices: internal/server/udp_service_map.go, over the session manager, the port allocator
--   and the deployments. `WebRtc` has the services with pairs of ports; a call sees one state of
--   the operating system for each target.
--
-- DeployUdp: internal/cmd/deploy_udp.go. `pre_run` is preRun with parsePortRanges, over the values
--   of the flags; a text of flags is a list of bytes.
--
-- Sizes, limits, ports and times are natural numbers, but for the times of sessions and the
-- percentage of a rollout, which are integers: lengths of slices, port numbers and time stamps are
-- never negative, and wrap-around of 64-bit counters is out of reach. Locks are not modelled: a
-- method holds its lock throughout, so it is one step; a wait with a lock held, as in Stop of a
-- UDP target, is not a step of its own. The limits of buffers are taken as not negative, and an
-- interval of health checks below zero as zero, on which a deployment panics as time.NewTicker
-- does; a restart, which reads intervals that a deployment accepted, does not. Logging is left
-- out, and so is what only calls net/http, net/rpc, crypto/tls or the ACME library. Error pages,
-- the file store of sessions and most of the command line are still to come.
pub mod Base
pub mod Buffer
pub mod Buffering
pub mod PauseController
pub mod PortAllocator
pub mod Paths
pub mod ServiceMap
pub mod SessionManager
pub mod Target
pub mod LoadBalancer
pub mod Rollout
pub mod Service
pub mod Router
pub mod UdpTarget
pub mod UdpDeployment
pub mod UdpServices
pub mod DeployUdp
