-- ===== src/Lib.antt =====
-- A verification library for AbilityFramework, the framework that installs, starts and supervises
-- abilities (subprocesses with an HTTP interface) and services on a device.
--
-- The program is a set of modules that send messages over a bus and share one libuv loop. Modelled
-- are: the tasks that all long-running work is made of and the manager that gives them rounds; the
-- election of a leader among frameworks; the supervision of services; the bus; the lifecycle of
-- abilities, whose requests become tasks; the resource manager's table of who holds what, and its
-- instances of abilities; the checks of documents against schemas; the teams of frameworks; the
-- managers of subprocesses and of controllers; the stores of task statuses and of alerts; and the two
-- maps that threads share.
--
-- Files and code:
--   Prelude, Prelude/*   tests, lists, maps and signed integers that the parts share
--   Tasks/State, Names   include/taskmgr/task.hpp (TaskState, is_end), src/taskmgr/task.cpp,
--                        src/taskmgr/task_status.cpp (to_string and the readers of names)
--   Tasks/Task           include/taskmgr/task.hpp (TaskBase), the fields of each task class
--   Tasks/Leaf, Composite, Resume
--                        src/taskmgr/common_tasks.cpp: `resume` of AtomicTask, ValueAtomicTask,
--                        WaitOnceTask, DelayTask, ThreadQueueWorkTask, SequentialTask, ParallelTask
--   Tasks/Sequence, Parallel, Search, Waiting (with Atoms and Drive)
--                        proofs about those
--   Tasks/Manager, Tasks/Manager/*
--                        include/taskmgr/task_mgr.hpp and src/taskmgr/task_entry.cpp: add, at, update,
--                        the async event, add_task_factory, POST /api/task, on_receive
--   Election/Message     include/discoverymgr/election_mgr.hpp
--   Election/Bully       src/discoverymgr/election_methods/bully.cpp: on_election_message, the three
--                        handlers, start, finish, and one round of work_working
--   Election/Addresses   src/discoverymgr/election_mgr.cpp: multiaddresses and impl_send
--   Election/Wire        src/discoverymgr/election_mgr.cpp and include/util/uuid_json_convert.hpp:
--                        from_json and to_json of messages
--   Election/Posts       HttpOverIpv4::send of src/discoverymgr/election_mgr.cpp, the route
--                        /api/team/election-msg of src/discoverymgr/discovery_mgr.cpp, and the status
--                        that src/util/handle_http_error.cpp gives an exception
--   Election/Peers       make_pinfo of src/discoverymgr/discovery_mgr.cpp, and a proof about it
--   Uuids                texts of uuids, for theorems at concrete inputs
--   Election/Split, Order, Leader, Takeover, Records, Segments
--                        proofs about those
--   Services/Entry       include/lifecyclemgr/service_state.hpp, include/lifecyclemgr/service_lifecycle.hpp
--   Services/Manager     src/lifecyclemgr/service_lifecycle.cpp, all operations
--   Services/Totals, Stops, Health
--                        proofs about those
--   Bus/Message, Modules include/messagebus/messagebus.hpp and src/messagebus/messagebus.cpp
--   Bus/Registry         proofs about those
--   Lifecycle/Heartbeat, Client
--                        include/lifecyclemgr/heartbeat.hpp, src/lifecyclemgr/heartbeat.cpp and
--                        src/lifecyclemgr/ability_client.cpp
--   Lifecycle/Manager, Requests
--                        src/lifecyclemgr/lifecycle_mgr.cpp and src/lifecyclemgr/lifecycle_request.cpp
--   Lifecycle/Laws       proofs about those
--   Sharded, Sharded/Whole
--                        include/util/concurrent_map.hpp (ShardedLockMap)
--   DoubleBuffered       include/util/concurrent_map.tpp (DoubleBufferedMap)
--   DoubleBuffered/Snapshots
--                        proofs about it
--   Resources/Tables     src/resourcemgr/resource_mgr.cpp: the tables and the documents in them
--   Resources/Ownership, Occupy
--                        the table CROwnership, occupy_* and unoccupy_*
--   Resources/Instances  the table AbilityInstance, on_event_heartbeat, auto_start_ability, on_register
--                        and on_ability_exit; DELETE /api/instance/:id of
--                        src/resourcemgr/resource_mgr_http_apis.cpp
--   Resources/Templates  add_ability_cr
--   Resources/Routes     src/resourcemgr/resource_mgr_http_apis.cpp: build_api_occupation
--   Resources/Requests, Session
--                        histories of requests, and of a session together with Lifecycle/Manager
--   Resources/Selected, Holds, Exclusive, Devices, Replies
--                        proofs about ownership
--   Resources/Passes, Retries, Registered, Repeats
--                        proofs about instances
--   Resources/Stored     proofs about templates
--   Statuses             src/taskmgr/task_status_mgr.cpp
--   Statuses/Latest      proofs about it
--   Alerts               src/abilityalertmgr/abilityalert_mgr.cpp, src/abilityalertmgr/ablity_alert.cpp
--   Alerts/Reads, Order  proofs about it
--   Subprocesses         src/subprocessmgr/subprocessmgr.cpp
--   Subprocesses/Shutdown
--                        proofs about it
--   Json                 the documents of nlohmann::json, with what the program reads of them
--   Schema/Expand, Refs, Validate, Tasks
--                        src/resourcemgr/json_schema_utils.cpp: expand_intentable, expand_ref, the
--                        validations, validate_cr_tasks_field
--   Schema/Plain, Kept, Hidden, Checked, Declared
--                        proofs about those
--   Yaml                 src/util/yaml_to_json.cpp
--   Yaml/Returns         proofs about it
--   Discovery/Teams, Rows, Broadcasts, Heartbeats, Packets
--                        include/discoverymgr/multi_map.hpp and src/discoverymgr/discovery_mgr.cpp:
--                        teams, parse_ipv4_broadcast, /api/team-heartbeat, the cleaning, and
--                        what start_sending and send_team_data send
--   Discovery/Jwt        src/discoverymgr/jwt.cpp
--   Discovery/Events, Tokens, Unmoved, Unchecked, Members, Peers, Ports,
--   Meetings, Reports, Heard
--                        histories of events, and proofs about them
--   Controllers          src/controllermgr/controller_mgr.cpp
--   Controllers/Starts   proofs about it
--   */Tests              theorems at concrete inputs
--
-- How code becomes definitions: a class with mutable fields is a record, and a method a function from
-- the record to the record, with the exceptions it lets out as values. A mutex makes a method one
-- step, so a history is a sequence of steps (Tasks.Manager.Invariant, Services.Manager.run,
-- Election.Leader.deliver, Bus.Modules.bus_after, Resources.Session.run_session,
-- Subprocesses.Shutdown.handles_after). A database is the list of the rows of its tables, and a query a
-- function on the list; calls of SQLite that fail are left out. What is not in the repository, or is
-- outside the process, is a parameter: the closures of tasks act on a world W and may throw;
-- `start_process` and `get` stand for the process manager and the HTTP client in the parts that call
-- them; `Network` for ElectionInterface::send; `Machine` for files, users and uv_spawn. Time is an
-- argument.
--
-- uuids are natural numbers (0 the nil uuid), maps association lists whose
-- order stands for the order of iteration. Counters that cannot come near the bound of an int are
-- natural numbers. Fuel occurs in three places: in `resume` it bounds only the search loop of a parallel
-- task; in `update` the loop over the handles, for which the number of handles plus one is enough when
-- the loop ends at all; and in `segments_loop`, for which the length of the address is enough.
--
-- JSON documents are a type J where they are only handed on, and the data type of Json where they are
-- read. A function that throws returns a value of Json.Try, whose failures tell apart what the handlers
-- of the program tell apart, and a step that C++ leaves undefined. What memory an int without an
-- initial value holds is a parameter. A document that one framework dumps and another parses is handed on
-- as it is.
--
-- Not modelled: logging and traces; the JSON of `status()`; the text of dates; the delay that
-- do_restart computes and only logs; the sleeps of the election's thread; sockets, mDNS, FTP and the
-- clients of the store; the reading of discovery's configuration; the resource
-- manager's packages, and its documents but for templates of abilities and devices' rows; and the HTTP
-- routes but for those of occupation, DELETE /api/instance/:id, POST /api/task, /api/team/leave,
-- /api/team-heartbeat and /api/team/election-msg.
pub mod Prelude
pub mod Uuids
pub mod Tasks
pub mod Election
pub mod Services
pub mod Bus
pub mod Lifecycle
pub mod Sharded
pub mod Resources
pub mod DoubleBuffered
pub mod Statuses
pub mod Alerts
pub mod Subprocesses
pub mod Controllers
pub mod Json
pub mod Schema
pub mod Discovery
pub mod Yaml
