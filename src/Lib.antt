-- ===== src/Lib.antt =====
-- A verification library for ReaLHF, a system that trains language models with reinforcement learning
-- on many GPUs. A master worker runs a dataflow graph of model function calls: it keeps the samples in
-- a buffer, and hands a batch to a call as soon as the keys the call reads are there. Model workers
-- execute the calls; their ranks form a grid of pipeline, data and tensor parallelism, and a pipeline
-- runs the micro-batches of a batch by a schedule that each stage computes for itself.
--
-- What models what:
--   Pipeline/   realhf/impl/model/parallelism/pipeline_parallel/static_schedule.py and instruction.py.
--       `Schedule` is the base class; `Train`, `Inference`, `Generate` and `DataParallel` are the
--       schedules as lists of steps; `Channels` is what two neighbouring stages have to agree on. A
--       generator is the list of what it yields; ids that go below zero are integers.
--   Buffer/     realhf/system/buffer.py, with the ids and keys of a `SequenceSample`
--       (realhf/api/core/data_api.py) and what is read of an `MFCDef` (realhf/api/core/dfg.py).
--       `Slots` and `State` are the arrays of `AsyncIOSequenceBuffer`, by slot; `Storage` is
--       `_TensorDictSequenceBuffer`; `Put`, `Amend` and `Get` are the three coroutines, cut at their
--       second `async with self._lock`; `Reach` runs their parts in any order. The event loop runs
--       fewer orders, since no coroutine waits while it has the lock, and the second part follows the
--       first at once; what holds in every state of `Reach` holds in the states of the program.
--   System/     realhf/system/request_reply_stream.py, model_worker.py and master_worker.py. `Client` is
--       the stream of the master, with its buffer of replies; `Worker` is how a model worker receives
--       requests and acks, matches them, and runs requests with their hooks (`Loop` is `_poll`), and
--       `Worker/History` what it should do; `Requests` builds the payloads of a model function call;
--       `Dispatch` keeps the owners of data, `Dispatch/Inputs` joins it to the transfer; `Throttle` is
--       what holds a call back.
--   Transfer/   realhf/impl/model/comm/data_transfer.py: `Setup` makes the routes between the data
--       parallel ranks of two models, on top of Topology/; Transfer.antt derives the plan of a call,
--       with `pipeline_repartition_strategy` (realhf/impl/model/nn/real_llm_parallel.py); `Run` is one
--       process that runs a plan, with what broadcasts bring as a parameter.
--   Samples/    realhf/api/core/data_api.py, a `SequenceSample` that is split (on top of Packing/),
--       gathered and unpacked.
--   Flatten/    realhf/impl/model/nn/flatten_param.py: `Keys` are those of the parameters
--       (`ReaLModelParamKeys` of realhf/impl/model/nn/real_llm_base.py), `Spec` is `build_param_spec`,
--       which lays the parameters out in one flat array, for any numbers of elements that they may
--       have, `Shapes` is `get_real_model_param_shape` (realhf/impl/model/nn/real_llm_parallel.py),
--       which gives these numbers, and `Intervals` sets and slices intervals of the array.
--   Topology/   realhf/base/topology.py, `ProcessTopology` and `_prime_factors`.
--   Packing/    realhf/base/datapack.py, the balanced partition of an array of lengths.
--   Timer       realhf/base/timeutil.py, `FrequencyControl` and `EpochStepTimeFreqCtl`.
--   NameResolve  realhf/base/name_resolve.py, the in-memory repository and `wait`.
--   Dataflow    realhf/api/core/dfg.py, `build_graph`, which finds the edges between the calls.
--   Base/       lists, tests, integers: the helpers that the parts share.
--
-- Numbers. Python's integers are unbounded, so counters, ids and times are natural numbers; where a
-- subtraction of the program can go below zero, the model uses integers or proves that it does not.
-- Strings that are compared only (keys, names, axes) are natural numbers.
--
-- Loops are recursion on a list or on the number of rounds left. The loop of `_prime_factors` runs on
-- fuel, the number to be factored, which is enough; `wait` runs on the list of its polls.
-- A blocking poll of the stream runs on fuel, which is enough if it is more than the calls of `recv` up
-- to the one that returns the message. The socket is a list of what these calls return, which may be
-- that no message has arrived yet.
--
-- What is not modelled: tensors and their contents, logging, the wake-ups of waiting coroutines (a
-- coroutine that waits takes its step when its condition holds), the processes and services the
-- program talks to.
pub mod Base
pub mod System
pub mod Transfer
pub mod Samples
pub mod Flatten
pub mod Pipeline
pub mod Buffer
pub mod Topology
pub mod Packing
pub mod Timer
pub mod NameResolve
pub mod Dataflow
