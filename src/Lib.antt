-- ===== src/Lib.antt =====
-- Verification library of the CPU proof of concept of an RL training loop for language models.
--
-- The program. A driver asks `rl_sim/rollout_manager.py` for a batch: groups of samples of one task
-- each, drawn by the epoch sampler of `rl_sim/data_source.py` and described by `rl_sim/types.py`.
-- A sample is generated on node1 through the `rl_sim/router.py`, which spreads requests over engine
-- backends, or as a whole trajectory on node2. There `rl_sim/sandboxd.py` keeps sandboxes and
-- starts a worker (`rl_sim/trajectory_worker.py`) that runs the agent loop of
-- `rl_sim/agent_runner.py` and has its patch scored by `rl_sim/grader.py`. The packed batch goes to
-- `rl_sim/trainer.py`, and `rl_sim/weight_sync.py` puts the new weights into the engine
-- (`rl_sim/engine.py`, `rl_sim/engine_local.py`). The agent loop reaches the engines through
-- `rl_sim/adapter.py`, which logs the tokens that the rollout manager reads back.
--
-- The files.
--   Common       shared names, lists, dictionaries, floats as an interface, results with an error.
--   Types        `rl_sim/types.py`: Sample, its enums, to_dict and from_dict.
--   DataSource   `rl_sim/data_source.py`: _next_task and get_groups over a generator state;
--                Tables has the built-in tasks.
--   Router       `rl_sim/router.py`: BackendRing (add, remove, pick, mark_failure) and forward.
--   Sandbox      `rl_sim/sandbox.py`: PROFILES, _isolation_prefix, _build_cmd; Task is the runner,
--                run_sandbox_task, _map_result and _parse_result_line; Pool is PoolMetrics and where
--                SandboxPool changes it.
--   Swebench     `rl_sim/swebench.py`: parse_instance, load_instances and to_task; Patch is
--                resolve_test_nodes.
--   Sandboxd     `rl_sim/sandboxd.py`: SandboxRegistry (create, get, stop, reap_idle, stats, the
--                trajectory calls); Command is exec_in_sandbox, split at the points where the lock is
--                free, Http is do_POST, Get is do_GET with read_sys_stats.
--   SandboxClient  `rl_sim/sandbox_client.py`: the client's calls as exchanges with the daemon.
--   Images       `rl_sim/mm_images.py`: the canvas, render_bar_chart and render_shapes.
--   DualMonitor  `rl_sim/dual_monitor.py`: the rows, their report, and the sampling thread.
--   Rollout      `rl_sim/rollout_manager.py`: Single is _generate_one run alone, Coroutines its calls
--                under one event loop with the end of _process_group, Remote is _run_swe_one with
--                _start_trajectory and _fill_logprob, Batch is generate_async with _drain_buffer and
--                _pack, Eval is eval.
--   AgentRunner  `rl_sim/agent_runner.py`: _truncate and _prune_messages; Run is run.
--   Grader       `rl_sim/grader.py`: grade; `rl_sim/trajectory_worker.py`: run_trajectory.
--   Trainer      `rl_sim/trainer.py`: rescore and async_train.
--   Monitor      `rl_sim/monitor.py`: StageTimer and percentiles.
--   Reward       `rl_sim/reward.py`: compute_reward and its three rules.
--   Train        `train.py`: the specifications of build_engine and the loop of main.
--   Bake         `tools/bake_swe_env.py`: step_fetch and select_subset; Steps is the other steps of main.
--   TrainAsync   `train_async.py`: the loop of main.
--   TrainSwe     `train_swe.py`: main, from the instances to the summary.
--   Engine       `rl_sim/engine.py`: the shared state with the pause gate and MockEngine; Api is
--                APIEngine, Local is `rl_sim/engine_local.py`, with LlamaServerManager in Servers.
--   WeightSync   `rl_sim/weight_sync.py`: WeightUpdater.update_weights; Gate has its steps between
--                those of the offline engine's generations.
--   Adapter      `rl_sim/adapter.py`: Adapter.generate over the router, TrajectoryLogger; Http is do_POST.
-- Operations have the names of the functions they model, without a leading underscore, but for the
-- engine's update_weights (set_version), the client's create, exec and stop (create_sandbox,
-- exec_command, stop_sandbox) and the server manager's build_cmd and stop_all (server_cmd,
-- stop_servers); a child
-- module named for a property holds the proofs, and Tests the runs at concrete values.
--
-- How the code is read. A method that changes its object returns the new one, next to what it
-- returns; an exception is a value of a result type, or `none` where its text is not used. A dict is
-- an association list in insertion order. Times are natural numbers of one unit, and a difference of
-- times is cut off at zero. Floats are the record `Float` of operations with no law; a theorem that
-- needs a law says so. Texts that the code slices are lists of code points, other texts strings.
-- Python's random generator, the file system, the processes, HTTP and JSON are parameters. Threads
-- that share the registry are sequences of the steps between which the lock is free. For the calls of
-- _generate_one the event loop is any list of events, each of which resumes, fails or cancels one
-- call at the await where it stands, with what the services answer at that moment, since they share
-- a random generator and the weights; for a whole rollout it is the order in which groups complete.
-- Between two stops of reap_idle other threads do what a parameter says.
--
-- Bounds. The retries of a start (3) and of a forwarded call are counted down as in the code, and
-- the turns of the agent by `max_turns`. The polling loop runs over the list of the answers it gets
-- and says so where it would go on. The wait for the servers has fuel for as many rounds as its
-- timeout has units of time, of which each round takes at least one, and the paging of the dataset
-- has fuel for its pages of 100 rows. All other recursion is structural.
--
-- Not modelled: the HTTP fronts but those of sandboxd and the POST handler of the adapter, command lines, clocks beyond the times that
-- decide a branch, rounding of reported times and of a row's log-probability, the texts of shell commands, a tool call whose JSON is no object,
-- the thread that a cancelled coroutine leaves behind, the request texts of the engines, the PNG files,
-- the tokenizer, reports and `run_experiments.py`.
pub mod Common
pub mod Types
pub mod DataSource
pub mod Router
pub mod Sandbox
pub mod Sandboxd
pub mod Rollout
pub mod AgentRunner
pub mod Grader
pub mod Trainer
pub mod Monitor
pub mod Reward
pub mod TrainAsync
pub mod TrainSwe
pub mod Swebench
pub mod Engine
pub mod WeightSync
pub mod Adapter
pub mod Train
pub mod Bake
pub mod SandboxClient
pub mod DualMonitor
pub mod Images
