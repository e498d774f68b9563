-- ===== src/Lib.antt =====
-- ContractPlane: a durable kernel that runs a compiled plan of stages by an event-sourced state
-- machine over a JSONL ledger (src/contractplane).
--
-- How the parts interact. `ExecutionMachine` (state.py) keeps the state of one execution: a status
-- and, for each stage of the plan, a group of work units. A public method checks its guards and
-- emits events. `_emit` validates the event against the state, appends it to the ledger
-- (ledger.py) and applies it. `replay` reads the events of the execution from the ledger and
-- validates and applies them again. The plan (compiler.py) is made from a domain pack (models.py):
-- the stages of one flow in waves, each behind what it needs. The loader (loader.py) makes the pack
-- from a document: it checks the document against the schema (schema.py), parses it, and refuses a
-- pack whose references or cycles would stop the compiler.
--
-- Files, and the code that they model:
--   Json              JSON documents, as Python's `json` hands them to the code
--   Errors            src/contractplane/errors.py: the exceptions, each message a constructor
--   Models            src/contractplane/models.py; Models/Render: its `to_dict` methods
--   Plan              src/contractplane/compiler.py: CompiledStage, Wave, ExecutionPlan;
--                     Plan/Render: their `to_dict` and the digest; Plan/Compile: `_compile_stage`
--   Compiler          src/contractplane/compiler.py: `topological_waves`, `_resolve_flow`,
--                     `compile_plan`
--     Compiler/Inspect  `inspect_pack`
--     Compiler/Reference  the waves without tables: round by round, the stages that need no other
--     Compiler/Lookup, Sorting, Release, Rounding, Agrees   the tables hold what the
--                     reference computes
--     Compiler/Waves, Cycles, Unknown, Rounds, Plans   what waves, a cycle, an unknown need, the
--                     bound on the rounds and a compiled plan are
--   Schema            src/contractplane/schema.py: the schema as a JSON value;
--                     Schema/Enumerations: its lists of texts against the loader's
--   Loader            src/contractplane/loader.py: `_structural_issues`, `parse_domain_pack`;
--                     Loader/Parse: `_parse`; Loader/Queue: `_cycle_nodes`; Loader/Issues:
--                     `semantic_issues`
--     Loader/RoundTrip    lemmas on parsing what was rendered
--     Loader/Bound, Counting, Joining, Visits, Accepted   lemmas on the loop of `_cycle_nodes`
--     Loader/Checked, Compiles   what a pack without issues is like, and that it compiles
--   Platform          what the code takes from libraries, as a parameter
--   Ledger            src/contractplane/ledger.py: `_decode` is decode, `read` is read_all and
--                     read, `_append_locked` is append_locked, then create_execution and append
--     Ledger/Decode, Appending, Raising   what reads back behind a call that returns, and behind
--                     one that raises
--   Action            methods that change a state and may raise
--   State             src/contractplane/state.py: its types, `_unit`, `_group`, `_stage_contract`,
--                     `dependencies_satisfied`, `_all_work_satisfied`
--     State/Kind        the event types
--     State/Validate    `_validate_event`
--     State/Apply       `_apply_event`
--     State/Step        `_emit`, `create`, `replay`
--     State/Operations  the private methods; State/Methods: the public ones
--     State/Sessions    sequences of calls, between writes of other executions to the ledger
--     State/UnitStep, GroupStep, Recorded, Lifecycle, Units, Finished, Order, Status
--                       lemmas on one event: what it finds, and what it keeps
--     State/Progress, Emission, Preserved, Recovery, Creation
--                       lemmas on applying, on `_emit`, on the methods, on the ledger's events
--     State/Views       `units`, `snapshot` and the `to_dict` methods
--     State/Obligations, Unblocked  what the kernel finds in a compiled stage and plan
--     State/Starts      the `unit.started` events and the attempts that the machine counts
--     State/Reachable, Transitions, Guarantees   the machines that events lead to
--   Cli               src/contractplane/cli.py: `_dispatch`, `main`, and `load_domain_pack`;
--                     Cli/Exits: the exit codes. The reading of a file and `yaml.safe_load` are
--                     parameters (Surroundings)
--   Samples           a concrete codec, a plan and a pack of two stages, and sessions that are
--                     evaluated
--
-- How the code is modelled:
--   - A `dict` with text keys is an association list in the order of insertion (Prelude/Dict). A
--     JSON object lists its fields by key, since the order of its keys is never seen; the schema
--     lists them as the source does.
--   - A method takes the kernel (machine and ledger) and returns a value or an exception beside the
--     kernel that it left, so that what was written before an exception stays.
--   - `json.dumps`, `json.loads`, `hashlib.sha256` and the `jsonschema` validator are the fields of
--     the parameter Platform. Theorems that need it assume IsCodec: a text that `dumps` returns is
--     not blank and loads as the same value. Samples/Codec has a codec with these laws.
--   - The ledger's file is a list of lines, which a newline ends, and the text behind the last
--     newline. The block under the lock takes the file and returns it beside a value or an
--     exception, with what was written before; the lock makes it one step. File modes, `fsync`
--     and failing I/O are left out.
--   - Where a dict that `to_dict` made of a model is kept in a plan, the model is kept.
--   - An exception's message is a constructor, without most values that its text interpolates. A
--     reference with a stage id or a unit key that is no text raises a TypeError at once; in the
--     code it does where it is hashed or searched.
--   - `_apply_event` gives no machine where it raises.
--   - A Python `int` that may fall below zero is a ℤ (Prelude/Int).
--   - A Python `set` of ids is a list. `remaining` of `topological_waves` is only sorted by a key
--     that differs between its members, so its order is not seen.
--   - The two `while` loops, of `topological_waves` and of `_cycle_nodes`, run for a bounded number
--     of rounds: as many as there are ids, and as many as there are ready ids and ids. Past the bound
--     they would raise `no_rounds_left`, which Compiler/Rounds and Loader/Bound rule out. All other
--     recursion runs over a list.
--   - An issue's path is a list of keys and indexes, its message a constructor. The issues come in
--     the order in which the code finds them; the code then sorts them by their texts.
--   - A value of another type than the schema asks for makes `parse` raise a TypeError. Python would
--     carry it along; the structural check refuses such a document before.
--
-- Not modelled: the parsing of the command line's arguments, the texts of messages, the writing of the
-- schema to a file by `write_schema`, and scripts/.
pub mod Prelude
pub mod Json
pub mod Errors
pub mod Models
pub mod Plan
pub mod Compiler
pub mod Action
pub mod Platform
pub mod Ledger
pub mod Schema
pub mod Loader
pub mod Cli
pub mod State
pub mod Samples
