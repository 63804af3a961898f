-- ===== src/Lib.antt =====
-- Verification of the single-GPU AI services.
--
-- One GPU is shared by several inference engines, each in a container. The gateway leases the GPU
-- from the dispatcher before it calls an engine; the dispatcher keeps the leases, and its worker
-- thread starts and stops the engines through the engine manager, which runs `docker` and `curl`.
--
-- Parts:
--   Base         shared names: native numbers, texts, lists, tests, results.
--   Json         JSON values with Python's `==` and truth, and dictionaries of them.
--   Base64       `b64encode` and `b64decode`.
--   Dispatcher   dispatcher/dispatcher.py, dispatcher/app.py, dispatcher/internal_auth.py.
--     Time, Lease, State   numbers that may be NaN or infinite, `LeaseRecord` and the dictionary of
--                          records, the fields of `GPUDispatcher`, its exceptions and shared helpers.
--     Api        `ready`, `submit`, `get_lease`, `release`, `cancel`, `_request_stop`, `close`.
--     Worker     `_run`, `_perform_start`, `_perform_stop` and the helpers of the worker.
--     System     methods and worker as steps on one state; `run` is a sequence of steps.
--     App        the lease endpoints of the HTTP application and their status codes.
--     InternalAuth   `load_internal_token`, `require_internal_token`, and an endpoint behind it; proofs.
--     Invariant, Reachable, Progress, Gpu, Service, Retention, Calls   proofs, by subject.
--   Runner       dispatcher/runner.py: the exceptions of `SubprocessRunner.run`.
--   Engine       dispatcher/engine_manager.py.
--     Manager    each method, as a function of the machine's state to its result and the state after.
--     Docker     what is relied on of Docker, as hypotheses on the machine.
--     Cleanup, Stopping, Health, Launch, Startup   proofs, by subject.
--   Cluster      the dispatcher with the engine manager as its engine, on one machine.
--   Gateway      gateway/app.
--     Limits     limits.py: `RequestCapacityLimiter`.
--     Middleware, Admission   `authenticate_client` of main.py, as a decision on each request and a server
--                that handles arrivals and ends of requests; proofs.
--     Upload     `_read_upload_limited` of main.py, with fuel for one byte in each turn.
--     Client     dispatcher_client.py: `acquire` and the other methods of `DispatcherClient`.
--     Serving    `_backend_json`, `_acquire_lease`, `_release_lease` of main.py, and `serve`, which is what each
--                handler does from the lease to its release.
--     Endpoints  what each handler of main.py checks, sends to its engine and makes of the response, with
--                Chat for `chat_completions` and Documents for `read_document`.
--     Handlers   the handlers as a whole, on a desk that notes the requests to the dispatcher and to engines.
--     Stream     chat_stream.py: `buffered_sse`, as the list of the objects that it prints.
--   Registry     client_access/registry.py: `TokenStore`, its refresh and `authenticate`.
--     Scopes, Validation   `validate_scopes` and `validate_registry`, with `_unique_object`.
--     Clients, Admin   client_access/admin.py: rows and actions; `mutate`, on a host with the registry's object and the tokens that
--                were delivered.
--   Mcp          mcp/server.py and mcp/auth.py: `decode_base64_payload`, the requests of `GatewayClient`,
--                `current_client`, the tools, and `verify_token`.
--   Models       reproducibility/verify_models.py: the places of the locked models and `verify_locked_models`.
--
-- How the code is modelled. A method of the dispatcher holds its lock, so it is one step; so is
-- each stretch of the worker between two engine calls. In Dispatcher an engine call ends as the
-- environment chooses; in Cluster it ends as the engine manager's method does. Each reading of the
-- dispatcher's clock takes the next value of a function that is a parameter. Times are whole
-- microseconds; a `wait_timeout`, which a caller gives, may also be NaN or infinite. An exception
-- is a value, and what was written before it was raised stays written. A record is a value under
-- its key: the code holds the one object that the dictionary holds, so each change of it is a
-- `put`. A dictionary is an association list in the order of insertion.
--
-- Loops. The loops over lists and over the attempts of the health check are structural recursion,
-- so no fuel is needed. The polling loop of the gateway's client has fuel for one turn in each
-- microsecond until its deadline, which is enough since a turn sleeps for a positive time. The
-- `while` loop of the worker is not run to an end: one turn is one step.
--
-- Parameters. The file system of the models: sizes, digests, and whether a path leads below the root.
-- How each writing of a file by the administrator ends. The engines of the gateway and the gateway of the MCP server: what each request is
-- answered. `sha256`, and what the file of the registry holds at a call. The file of an upload,
-- which gives the next bytes at a read, and none only at its end. The network of the gateway's
-- client: the answers, the time, whether the task is cancelled in a sleep. The machine: its clock,
-- `time.sleep`, the end of each process. What Docker is relied on for: nothing but `docker start C`
-- brings the container C up, except a start whose client timed out, which may still take effect and
-- counts as pending; `docker inspect` does not call a running container stopped or missing. The
-- text of an exception is a parameter too.
--
-- Not modelled: the wake-ups of the condition variable, which only shorten a wait; a cancellation of the
-- task while `DispatcherClient` closes its connection, after an answer; negative numbers in the
-- dispatcher's configuration, which its constructor refuses; what packages do with a request before a
-- handler is called; the printing of JSON; whether a text is a time, which is a parameter of the
-- registry's validation; the checks of directories in the administration of the registry, its lock and
-- the command lines; the scripts that download models and inspect images.
pub mod Base
pub mod Dispatcher
pub mod Runner
pub mod Engine
pub mod Cluster
pub mod Gateway
pub mod Registry
pub mod Json
pub mod Base64
pub mod Mcp
pub mod Models
