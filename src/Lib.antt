-- ===== src/Lib.antt =====
-- kaeAgent: a Go library that runs language-model agents.
--
-- A session keeps a conversation. Each message of the user starts a turn: a loop of steps, each of
-- which sends the conversation to a provider and then answers, runs tools or hands over to another
-- agent. Before a request the conversation may be compacted. Around this stand a budget, a registry and
-- a dispatcher of tools, stores for conversations, and a router of agents.
--
-- The files and the code that they model, by paths from the repository's root:
--   Base       shared names: Boolean tests on native numbers, lists, Go slices (nil is told from
--              empty), Go maps as association lists, 64-bit integers (`wrap64`), results
--   Llm        llm/provider.go: the records of messages, calls, requests and responses (Types), the
--              values of an `any` (Value), and the deep copies of compaction/compaction.go, which
--              agent/clone.go, agent/internal/engine/builders.go and store/inmem/inmem.go repeat (Clone);
--              llm/registry.go (Registry) and llm/wrappers.go (Wrappers)
--   Compaction compaction/compaction.go (Types, Engine), estimator.go, trigger.go, the strategies
--              strategy/slidingwindow, strategy/turnwindow, strategy/tokenlimit, `splitTurns` (Turns),
--              and `defaultCompactor` of agent/runtime.go (Default)
--   Engine     agent/internal/engine: types.go, commands.go (Commands), turn.go (Turn), and
--              agent/runtime_engine_plan.go, which parses the commands again (Plan)
--   Streaming  streaming/budget.go (Budget), agent/internal/streaming/tool_call_assembler.go (Assembler)
--   Tools      tools/registry.go (Registry) and tools/dispatcher.go (Dispatcher; Dispatcher/Batches for
--              calls that overlap)
--   Conversation  agent/conversation.go
--   Store      store/inmem/inmem.go (Inmem)
--   Session, Agents  agent/session.go; agent/agent.go and agent/registry.go
--   Runtime    agent/runtime_compaction.go (Request), agent/transfer_input.go (Transfer),
--              agent/runtime_state.go and the setters of agent/runtime.go (State), the payloads of consult
--              and transfer calls (Payload), and the handover of agent/subagents.go (Subagents)
--   Runtime/Executor  agent/runtime_run.go, runtime_executor.go and runtime_engine_*.go: a run over the
--              runtime's parts. Commands carries out one command of the engine, Plans the parsed plans,
--              Tools gives the tools of a request and finds a transfer among the calls, Requests makes
--              one step with its middleware, Turns joins the hooks of Engine/Turn into `Run`, and Streams
--              is the step whose answer arrives in events; Retry is agent/middleware.go's `RetryMiddleware`
--   Multiagent multiagent/router.go (Router)
-- A child module of one of these, such as Engine/Turn/Runs, proves what its name says; a Tests module
-- runs the definitions on small inputs.
--
-- How they are modelled. A method under a mutex is one step, a function from a state to a result and a
-- state. Errors are values of a data type, with the numbers and names that the source prints. The turn
-- loop (`ExecuteTurn`) is a function over the hooks of the runtime, which read and change a state that
-- is a parameter; `validateTurnInput` gives the hooks that are set. Its loop recurses on `MaxSteps`,
-- which is exact. The loop of the token limit runs on fuel, the number of messages, and every round
-- drops a message; the one of the retries of a provider, which has no bound of its own, runs on as many
-- rounds as are asked for. `DispatchAllWith` with several calls at a time is a step relation: a launch, the end of a running call, a stop by the context. A context
-- that may be cancelled at any moment is a function of the state, or what its readings give.
-- Messages are values: a deep copy is a function that rebuilds them, and aliasing is not modelled.
--
-- Parameters, since they are not code of the repository: lengths of JSON texts and the conversion of a
-- float64 (`GoStd`), float64 arithmetic (`Floats`), `strings.TrimSpace`, `json.Unmarshal`, printed
-- numbers, the texts of errors, handlers of tools, token estimators and compactors of the caller. The
-- schema package's validation is a parameter of the dispatcher. A run takes the record `Env`: the
-- provider, the stores of conversations and sessions, the runner of tools, the resolver of agents, the
-- filter of transfers, JSON texts of the session and quoted strings. Each of these reads and changes one
-- world, whose type is a parameter, and so do the handlers that a middleware wraps. What a proof asks of
-- them is a hypothesis of its theorem.
--
-- Not modelled: the provider adapters and their HTTP and event streams (llm/openai.go, claude.go,
-- gemini.go, qwen.go, internal/llmhttp, internal/sse), tracing (observability, agent/internal/trace),
-- the SQL and file stores, the examples; and, so far, the summary strategy, the schema package, the
-- bound on the calls of a provider in flight, the cost middleware, the middleware of streaming steps, the
-- child runtimes that a consult call starts, `NewRuntime` with its options, the goroutine of `Stream`
-- (its step is in Streams), and the workflow and orchestrator helpers.
pub mod Base
pub mod Llm
pub mod Compaction
pub mod Engine
pub mod Streaming
pub mod Tools
pub mod Conversation
pub mod Session
pub mod Agents
pub mod Store
pub mod Runtime
pub mod Multiagent
