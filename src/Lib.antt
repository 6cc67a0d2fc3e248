-- ===== src/Lib.antt =====
-- Comet-RAG: the task subsystem (comet_rag/tasks), the concurrency gate and the degradation of
-- service (comet_rag/core), the recursive text splitter (comet_rag/engines/chunkers), the batches
-- of embeddings (comet_rag/engines/embedding), rank fusion (comet_rag/engines/retrieval), the
-- vector store and the knowledge bases in memory (comet_rag/infrastructure/persistence), and the
-- services over them for knowledge bases, retrieval, the indexing of documents and the admission of
-- sources (comet_rag/services), with the kinds of files and the limits on archives
-- (comet_rag/engines/documents) and the downloads of files (comet_rag/infrastructure/sources).
--
-- The program ingests documents as background tasks. A `TaskService` accepts, cancels, retries and
-- deletes tasks; a `TaskStore` holds their records and is the only thing that changes a status; a
-- `StoreDrivenExecutor` claims a task, runs the runner that is registered for its kind and files
-- the outcome; runners speak to the store through a `TaskContext`, and a `StagePipeline` is a
-- runner of named stages. Calls of model services pass through a `Gate`, a budget of calls in
-- flight; how they end and how many wait tell a `DegradationController` which features to do
-- without. A `SourcePolicy` decides which sources may be loaded, and `validate_zip_archive` which
-- archives may be opened. A `URLLoader` downloads a file, asks the policy about each redirection,
-- and registers its temporary files, so that a failed download or a shutdown removes them. Runners
-- split texts into chunks with a `RecursiveCharacterTextSplitter`, have them embedded batch by
-- batch, and the last stage of an ingestion writes them into the collection of a knowledge base,
-- which a `KnowledgeBaseService` has made for one embedding model. A `RetrievalService` answers a
-- query from the collection by vectors, by keywords or by both, fuses the two rankings and has the
-- result reranked, and does without what fails.
--
-- Which file models which part, with paths below comet_rag:
--   Prelude, Dict, Keyed  tests on numbers, lists, options, texts; a sort; a dict as a list of its
--                         entries in order; lists of values with keys
--   Effect                coroutines over a shared state
--   Floats                the operations on floats that the program uses
--   Tasks/Status, States  `TaskStatus` of tasks/models.py; the table `_ALLOWED` of tasks/states.py
--   Tasks/Models, Fields  the records of tasks/models.py; `**fields` with the checks of their names
--   Tasks/Error, Value    the exceptions of comet_rag/tasks; JSON values
--   Tasks/Effect          the coroutines over the tables of the task store
--   Tasks/Memory          `InMemoryTaskStore` of tasks/store_memory.py
--   Tasks/Cas             `_cas`, `require`, `_check_fields`, `_check_version`, `_close_stage`,
--                         `_anchor_if_missing` of tasks/store.py
--   Tasks/Store           `create`, `list_tasks`, `update`, `transition`, `heartbeat`, `enter_stage`,
--                         `delete` of tasks/store.py
--   Tasks/Sweep           `sweep_stale` of tasks/store.py
--   Tasks/Runner          tasks/runner.py
--   Tasks/Executor        `StoreDrivenExecutor` of tasks/executor.py; how a run ends is in
--                         Tasks/Endings
--   Tasks/Service         tasks/service.py
--   Gate                  `Gate` of core/concurrency.py; Gate/System has its users
--   Degradation           `DegradationController` of core/degradation.py
--   Chunker               `RecursiveCharacterTextSplitter` and `BaseChunker.chunk` of
--                         engines/chunkers/base_chunker.py; Chunker/Strings has `str.split` and `str.join`
--   Batch                 engines/embedding/batch.py
--   Fusion                engines/retrieval/fusion.py
--   VectorStore           `VectorRecord`, `SearchHit`, `matches_filter` of ports/vector_store.py;
--                         VectorStore/Memory is infrastructure/persistence/vector_store/memory.py, with
--                         its tokens and BM25 scores in VectorStore/Keywords and its cosine in
--                         VectorStore/Cosine
--   Stores                what the vector store and the repository of knowledge bases hold, and the
--                         exceptions of the services over them
--   Knowledge             infrastructure/persistence/knowledge_base/memory.py, services/knowledge_base.py
--   Retrieval             services/retrieval.py: `search` in Retrieval, `_recall` in Retrieval/Recall,
--                         `_rerank` in Retrieval/Rerank, the chunks in Retrieval/Chunks
--   Ingestion             `_index`, `_drop_stale_tail`, `_classify` of services/ingestion.py
--   SourcePolicy          services/source_policy.py
--   Archive               engines/documents/common/archive.py
--   Formats               engines/documents/formats.py
--   Sources               the loaders: Sources/TempFiles is `TemporaryFileRegistry` of
--                         infrastructure/sources/file_info.py, and Sources/Http the downloads of
--                         infrastructure/sources/http.py
--   Samples               runs at concrete inputs
-- The children of a module prove things about it.
--
-- How state is modelled. A coroutine is a function from a `World` to a result and a `World`: the
-- shared state, and the list of what other coroutines and processes do to it, one entry for each
-- `await` at which they may act. So an interleaving is a list of functions on the state, and a
-- theorem for all worlds holds under every interleaving; what the others keep is a hypothesis
-- (`Friendly`), and Effect/Keeps has the rules by which a coroutine keeps it as well, Effect/Gives
-- those for what it brings about. A world with no others is `quiet`. Each section under a lock is
-- one step. The state is the tables of the task store, or the `Stores`: the collections of the
-- vector store, the rows of the knowledge bases, and a clock. The clock moves only while others
-- act. Identifiers of tasks are random and not used twice: others may remove a task, but bring none
-- under an id that had none. The two channels of a hybrid search run one after the other, with the
-- others in between; the errors of both are looked at when both have ended, as the source does.
--
-- Data. Times are numbers of ticks and leases are numbers of ticks. A progress is a fraction of
-- whole numbers, where the source has a float, and so are the rates and thresholds of the
-- degradation, which are compared exactly. The scores of retrieval are values of a type of floats
-- whose operations are arguments; what the sorts need of them, `IsOrdered`, is that they compare as
-- numbers do, without NaN. The splitter's texts are lists of code points. A text that the source
-- formats from values is a template with these values (`Message`), or left out of an exception. An
-- exception is a value of `Error`; any other exception has its type's name and the names of its
-- bases. Records have value semantics, as the copies of `_clone` do.
--
-- Bounds and fuel. `_cas` tries five times (`_CAS_RETRIES`); its rounds are the recursion of
-- `cas_rounds`, which raises the last conflict when they are used up, as the source does. Cutting a
-- text into slices has one round of fuel for each character; a slice takes one at least when the
-- size is above 0. The loop of an indexing has one round for each chunk; a window takes one chunk
-- at least, and `range` refuses a window of 0. A download follows redirections by recursion on how
-- many it may still follow, as `max_redirects` bounds them. All other loops, the recursion of the
-- splitter on its separators included, are recursions on lists.
--
-- Parameters. The embedding model, the reranker, runners, stage functions, and the hooks of an
-- executor's subclass (`_schedule_retry`, `_schedule_handoff`, and `submit` and `request_cancel`
-- for the service) are arguments; so are the store's searches in the retrieval service, as the
-- source has them behind a port. Of the libraries, `urlparse`, `ipaddress`, `str.lower` of an
-- address, the resolution of paths and hosts, the list of the members of an archive and the events
-- of the XML parser, the hash that makes the id of a chunk, the equality of metadata values, the
-- order in which a set of terms is walked, the answers of servers, each in the light of all
-- requests before it, the names of temporary files, the paths on which the file system refuses to
-- work, and the detection of the kind of a file are arguments. A download is modelled as its
-- synchronous method, alone with its files. In the gate, the environment chooses how a wait ends
-- and which event loops can still be woken; a waiter whose loop is closed never runs again, so it
-- takes no step after `release` has passed it over.
--
-- Not modelled: the bookkeeping of asyncio tasks in `InProcessExecutor`, time-outs of a runner
-- other than as an exception it raises, a KeyboardInterrupt or SystemExit of a runner, JSON encodings of tasks, the observers of a gate, the
-- extracting and chunking stages of an ingestion, the library pipeline, and what works through
-- libraries and services: the other loaders of sources and their routing, the asynchronous twins
-- and the batches of downloads, parsers of documents, model clients, databases, the queue over
-- Redis, the API and the configuration. A `result_uri` that a stage has left in the context is
-- taken for a text, as its type says.
pub mod Prelude
pub mod Dict
pub mod Keyed
pub mod Floats
pub mod VectorStore
pub mod Stores
pub mod Knowledge
pub mod Retrieval
pub mod SourcePolicy
pub mod Archive
pub mod Ingestion
pub mod Fusion
pub mod Effect
pub mod Formats
pub mod Sources
pub mod Tasks
pub mod Gate
pub mod Chunker
pub mod Degradation
pub mod Batch
mod Samples
