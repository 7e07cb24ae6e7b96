-- ===== src/Lib.antt =====
-- MemGraphRAG answers questions over a corpus from a memory of three layers: schemas (ontologies),
-- facts (triples) and passages. This library models the memory, the ingestion of documents into it and
-- the store that keeps their status, the agent that searches it, the conversations, and the smaller
-- parts that these use.
--
-- The parts, and how they meet. Text is the Python text, a list of code points. Text.Canonical is
-- canonical_key and canonical_triple (memgraphrag/utils/canonical.py), which fold a label to the key
-- under which the memory finds a schema or a fact. Memory is ThreeLayerMemory
-- (memgraphrag/memory.py): it keys schemas and facts by canonical_triple and passages by their chunk.
-- Storage is the key-value store on a JSON file (memgraphrag/storage/json_kv_impl.py). Pipeline is the
-- worker that takes documents from their file to the memory (memgraphrag/pipeline.py): it keeps their
-- status in a store of Storage, cuts them with a chunker and hands the chunks to the engine. Chunker
-- is the cutting of a text into windows of tokens (memgraphrag/chunker/token_size.py). Agent is the
-- loop that lets a model search (memgraphrag/agent): it keeps the messages in their budget, runs the
-- tools, and filters the streamed answer. Chat holds the conversations and whose they are
-- (memgraphrag/chat). Api is the limiter of login attempts (memgraphrag/api/rate_limit.py) and the
-- blanking of literals in a query (memgraphrag/api/routers/cypher.py), which stand by themselves.
--
-- Which file models which code:
--   Base        numbers, lists, dictionaries and results: what Python gives. An exception is the
--               value raise e of Result; an index out of range raises index_error.
--   Text        Defs: strip and its halves. Find: startswith, find, slices, join. Canonical: the
--               folding of labels.
--   Memory      Nodes: SchemaNode, FactNode, PassageNode and the state of ThreeLayerMemory as the
--               record Memory. Create: _get_or_create_schema, _get_or_create_fact and
--               _get_or_create_passage. OpenIe: _triple_tuple_from_openie_item, on Python values.
--               Build: build_from_raw_openie_results and build_from_openie_results, a definition for
--               each loop. Read: the get_ methods. Link: link_fact_to_schema. Filter:
--               recompute_schema_frequencies and filter_schemas_by_frequency. Edit:
--               _rebuild_fact_indices, remove_fact, replace_fact and add_fact_with_passages. Dump:
--               to_dict and from_dict.
--   Storage     JsonKv: JsonKVStorage with initialize, finalize, batch, _flush, the reads, upsert,
--               delete and drop; Call and run are a list of calls on one store.
--   Pipeline    Status: the records of doc-status, _set_status, enqueue_document,
--               reset_interrupted_documents, and get_docs_by_statuses of
--               memgraphrag/storage/json_doc_status_impl.py. Index: _assign_chunk_ids and
--               _index_chunks. Worker: what process_pending is given, its arguments for a chunker, and
--               parse_chunking_strategy of memgraphrag/parser/routing.py. Process: process_pending, a
--               definition for each part of its try. Drain: requeue_document, and the loop of
--               _drain_until_idle, of memgraphrag/api/routers/documents.py.
--   Agent       Budget: count_tokens and enforce. Harmony: HarmonyFilter with feed, flush, _decide,
--               _release and _strip_scaffolding; its three regular expressions are written out.
--               Fence: fence_passages of memgraphrag/prompts/templates.py and _fence_from. References:
--               build_references of memgraphrag/utils/misc.py, and what the tools keep. Tools: the
--               methods of ToolBox, _derive_param and _parse_arguments. Session: what run_agent is
--               given, keeps and yields. Loop: run_agent, _decide, _final_answer, and precheck_model of
--               memgraphrag/agent/capabilities.py.
--   Chat        Thread: the records and derive_title of memgraphrag/chat/models.py. Store:
--               InMemoryChatStore.
--   Api         RateLimit: FixedWindowRateLimiter with check, _prune and reset; the clock is an
--               argument of check. Cypher: strip_literals_and_comments of
--               memgraphrag/api/routers/cypher.py.
--   Chunker     TokenSize: chunking_by_token_size and chunking_by_fixed_token.
--
-- Objects that are changed in place: a definition takes the object and returns the one after the
-- call. Memory.Relation and Memory.Invariant say what holds of a memory between two calls. IsSound:
-- each dictionary finds exactly the nodes of its layer by their keys, each node holds its position, and
-- a fact names a passage just when the passage names the fact. IsClassified: a schema lists exactly
-- the facts whose schema_idx is its position, each once, and its frequency is their number. IsFiled, of
-- Memory.Filed, is half of that: each fact is in the list of the schema that it belongs to, and may be
-- in the lists of others too. IsDurable of Storage.Durable says that the file of a store holds what
-- the object does, but for what a batch has still to write. Moves of Pipeline.Moved is the step
-- relation of the status of documents. IsStore of Pipeline.Written says that a store has each key once,
-- as every Python dictionary has.
--
-- The worker keeps its progress (Progress) in each outcome, since the handler of an exception works on
-- the record as it is when the exception is raised. The agent's loop keeps the frames that it yields in
-- its state; a run gives those frames and how the generator ends. Acted of Agent.Stepped is the relation
-- of its steps. The documents that other requests queue while a round of the worker runs are an argument
-- of drain, a list for each round (Arrivals of Pipeline.Drain). The worker reads its list of documents
-- when it starts and does not see them, so they are written behind its own writes; that a document is
-- queued again while the round is at work on it, and then overwritten by it, is not modelled.
--
-- Loops are structural recursion over the list that the source runs through. The steps of the agent
-- are counted down from max_steps, as in the source. Three definitions have fuel: drain of
-- Pipeline.Drain a number of rounds, of which one more than those in which documents are queued is
-- enough, range_from of Chunker.TokenSize the number to stop at, which is enough since a step is at
-- least 1, and digits of Agent.Fence the number itself, which has no more digits than it counts. The
-- loop of enforce takes the messages that it has passed as an argument, since it counts the tokens of
-- the whole list at each of them. Frequencies, positions and counts are natural numbers without a bound, as in Python;
-- schema_idx, top_k and the sizes of the environment that may be negative are signed.
--
-- Parameters. The tables of Unicode (Unicode of Text.Canonical), str and literal_eval (Python of
-- Memory.OpenIe), the tokenizers (Encoder of Agent.Budget, Tokenizer of Chunker.TokenSize), the classes
-- of white space and of word characters, the MD5 digest (Hashing of Pipeline.Index), the file system
-- with the parsers, the chunkers and the engine (Worker of Pipeline.Worker), the engine and JSON for
-- the tools (Backend of Agent.References), the model and the prompts (Setting of Agent.Session), new
-- identifiers and the clock (arguments in Chat.Store). A parser, an engine or a model may return or
-- raise anything.
--
-- Not modelled: embeddings beyond a place in the nodes, logging and traces, the times in doc-status,
-- the flags and the lock that the requests share, the reading and the writing of a memory's files (save,
-- load, print_summary, print_sample), a write of a store's file that fails, and the rest of the program: the other chunkers, parsers and their
-- routing but for the strategy, the vector and graph stores, retrieval, PageRank, model clients, the
-- rest of the API, the chat on a database, clients and evaluation. Most of these call models,
-- databases and the network.
pub mod Base
pub mod Text
pub mod Api
pub mod Agent
pub mod Chunker
pub mod Memory
pub mod Storage
pub mod Pipeline
pub mod Chat
