-- ===== src/Lib.antt =====
-- Musaed is a desktop chat for local language models: a web frontend (apps/web) that streams
-- answers from a backend over an IPC bridge. This library models the state and the core logic of
-- the frontend, and proves what makes it correct.
--
-- The parts, and how they interact:
-- - Base: shared names, tests, lists, tables (`Dict` stands for a `Record` or a `Map`) and
--   integers.
-- - Message: the chat message of packages/contracts/src/schemas/conversation.ts and partial
--   updates.
-- - Tracing: apps/web/src/lib/store-tracing.ts, the throttled traces that the stores emit.
-- - Store: the stores of apps/web/src/store: `Messages` (message-store.ts), `Streaming`
--   (streaming-store.ts), `Ui` (ui-store.ts), `ModelParams` (model-params-store.ts) and
--   `Conversations` (conversation-store.ts). A store is a record, and each action is the function
--   that `set` gets.
-- - Coalescer: apps/web/src/lib/token-coalescer.ts, tokens that wait for the next animation
--   frame.
-- - Coordination: apps/web/src/store/coordination.ts, which joins these stores into one state
--   `App`. `Events` are the calls that reach it, and `run` is a sequence of them: JavaScript runs
--   one call to its end before the next, so an interleaving of callers is an order of events.
--   `Drain`, `Streams`, `Stop`, `Delivery`, `Isolation`, `Buffering`, `Tokens`, `Flag`, `Turn`,
--   `Remnants` (what the stores keep of a conversation beside its stream) and `Hydration` hold the
--   proofs.
-- - Budget: apps/web/src/lib/token-budget.ts: estimates, the history that is sent, the room for
--   the answer, and the parameters of a model.
-- - Ipc: `Latency` is apps/web/src/lib/ipc-latency.ts with the recorders of lib/ipc/transport.ts;
--   `Transport` is `callInternal` of that file, with the answer of the backend as an argument.
-- - Migration: apps/web/src/lib/migrations/orchestrator.ts on JSON values (`Value`), forward
--   (`Forward`) and back (`Rollback`), and the migrations of apps/web/src/store/settings-store.ts
--   (`Settings`); `Storage` is apps/web/src/lib/tauri-storage.ts, which runs them on a file.
--   What the backend does with each call of a run is an argument (`Answers`).
-- - Connection: apps/web/src/lib/connection-manager.ts, the health checks of the Ollama server.
-- - Url: apps/web/src/lib/url-allowlist.ts, which servers (`Local`) and pages (`Opener`) are let
--   through, with the platform's `URL` as an argument.
-- - Persistence: apps/web/src/features/conversation/utils/message-persistence.ts, the retries,
--   with the outcome of each attempt (`Attempt`) as an argument.
-- - Send: the send pipeline of apps/web/src/features/conversation: `Texts` for the texts that it
--   joins, `Stream` is hooks/useChatStream.ts, `Backend` is hooks/useTauriEvents.ts, and
--   `Service` is services/ChatSendService.ts, cut at its awaits (`Guards`, `Requests`, `Steps`):
--   between two parts any other call may change the stores.
-- - Actions: apps/web/src/features/conversation/hooks/useConversationActions.ts: creating, deleting
--   and clearing conversations across the stores.
-- - Thinking: packages/contracts/src/redactedThinking.ts: the thinking blocks of an answer, found
--   (`Tags`) and removed (`Stripped`).
-- - Titles: apps/web/src/features/conversation/utils/title-generator.ts and
--   hooks/useAutoTitle.ts: the titles that the model makes, cut at the awaits.
-- - Library: `Capabilities` is the cache of apps/web/src/features/library/hooks/
--   model-capabilities-cache.ts, and `Keyboard` is useModelSelectorKeyboard.ts beside it.
-- - Rag: `Project` is apps/web/src/lib/rag-status.ts with packages/contracts/src/schemas/rag.ts,
--   `Store` is apps/web/src/store/rag-store.ts, and `Migrations` is
--   apps/web/src/lib/migrations/versions/rag.ts.
-- - Sidebar: `Grouping` is apps/web/src/features/sidebar/hooks/useSidebarGrouping.ts.
-- The tests are the modules called `Tests`.
--
-- Numbers are natural numbers without bound, as the program's counts, lengths and times stay far
-- below 2^53. Loops are structural recursion on lists, on the number of versions or on the
-- retries that are left, so there is no fuel to run out of. Clock readings, random identifiers,
-- answers of the backend and frame handles are arguments.
--
-- Lower case is that of ASCII. Regular expressions are the matchers that they denote.
--
-- Not modelled: the React components, the other hooks, the model store, the text of log entries
-- and toasts, the schemas of zod, which are parameters of the bridge and let through the data that
-- a migration starts from, and the backend in Rust.
pub mod Base
pub mod Message
pub mod Tracing
pub mod Store
pub mod Coalescer
pub mod Coordination
pub mod Connection
pub mod Budget
pub mod Ipc
pub mod Migration
pub mod Persistence
pub mod Send
pub mod Actions
pub mod Thinking
pub mod Titles
pub mod Library
pub mod Rag
pub mod Sidebar
pub mod Url
