-- ===== src/Lib.antt =====
-- Tile: an agent runtime in Python, and what holds of its core.
--
-- A harness accepts a prompt in a session and runs it: the agent loop streams assistant turns from a
-- provider, executes the tools that they ask for, and emits events; a run collects the events and
-- commits its outcome and its part of the conversation to the store. This library models the parts
-- with logic of their own, each as functions by clauses on plain data:
--
-- Types: the data that the parts exchange (tile/types, tile/events.py, tile/result.py): assistant
--   blocks, stream events, conversation items, tool results, outcomes, events.
-- Truncation: tile/tools/support/truncation.py and tile/tool_truncation.py, on texts as lists of
--   code points (a Python `str`), with the byte length of their UTF-8. Edges says which lines stay,
--   Limits when anything is cut.
-- OpenAi: tile/providers/openai/normalized_events.py and stream_assembler.py. Assembler has the
--   state with its list of blocks and a reference into it, and one function per handler. Blockwise is
--   the abstract view, closed blocks and one open block; Refines relates the two; Replay and
--   Transcript are about whole streams, Finals about the blocks that a stream ends. SdkAdapter is
--   sdk_event_adapter.py and Serialization is serialization.py there: Terminal, Replays and Pairs say
--   how the client library's events, the blocks, and the items of a later request correspond. The
--   JSON texts of the standard library and of the client library are parameters.
-- Store: tile/store and tile/_sqlite.py. Models are the records and Rows their encoding as columns,
--   with the JSON adapters of pydantic as a parameter, a `Codec`. Tables has the three tables with
--   the constraints of tile/store/schema.py and the statements; Exec the transaction, as a function
--   of database states that puts the old one back on an error; Statements the private methods of
--   `SQLiteStore` and Sqlite the public ones. Invariant, Effects, Keeps and Reachable carry the
--   invariant over any sequence of calls (Operations); Atomic and Promises say what callers rely on.
-- Runtime: History is tile/runtime/history.py; Replies says which calls have results, Heals what
--   healing does. ToolExecutor is tile/tool_executor.py. Agent is tile/agent.py, where Answers and
--   Complete say what an invocation adds to the history, Shown what the provider is shown, and Stops
--   that it ends. Execution is tile/runtime/execution.py with the result tools, Results how a typed
--   prompt ends, and Typed that a prompt does. Run is tile/runtime/run_execution.py, and Settles
--   relates its end to the store. The provider, what tools do, the validations of pydantic, the
--   system prompt, and `str.lower` and `str.strip` are parameters; `W` is the world they act on.
--
-- Tools: Edit is tile/tools/edit.py. Endings has the mark and the line endings of a file, Spans the
--   exact matches, the overlap check and the splice, Lines and Fuzzy the windows of normalized lines,
--   Apply the edit of a file, on a disk that is a parameter with its reads and writes, as are NFKC
--   and difflib. Scan, Order, Splice, Exact, Windows, FuzzyMatches, Missing, Kept, Returns, Settles and
--   RoundTrip are the theorems. Paths is tile/tools/support/paths.py. Read is the text
--   part of tile/tools/read.py, and Pages is about reading on. Accumulator is
--   tile/tools/support/output_accumulator.py: Tail is about the cut of its buffer, Retains, Chunks and
--   Snapshot about the output that it was given. Utf8 is Python's codec, whose decoder goes on from
--   chunk to chunk.
--
-- Numbers are natural numbers, as every count, index and position of the code is one. A time is its
-- number of microseconds, ids that the code draws are an argument (`draw`), and so is the clock. The
-- loop of the agent is on fuel, the turns it may take: a provider that asks for no tool from some
-- number of turns on is done within one turn more. The search for the places of a text is on fuel, one
-- turn more than the content has characters, and each turn moves on. Every other loop is over a list
-- or a number.
--
-- Not modelled: files, processes and the network; asyncio, so that a stream is the list of its
-- events; time zones; deep copies, as values here are never shared; of SQLite, errors other than
-- those of constraints, and that a transaction excludes others, which is why a call is one step.
pub mod Base
pub mod Types
pub mod OpenAi
pub mod Truncation
pub mod Store
pub mod Runtime
pub mod Tools
