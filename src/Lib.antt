-- ===== src/Lib.antt =====
-- The backend of a multi-tenant retrieval application: its in-memory maps of documents, chunks and
-- sessions, the names that keep the tenants' collections apart, its queue of background work, and
-- the retrieval that feeds the generation.
--
-- The parts, with the paths from the repository's root:
--
-- Python: what the program uses of Python and its standard library. Exceptions are a result type;
--   a method is a state transition that returns a result, and keeps the changes made before it
--   raises. `Object` is a value whose type is tested at run time, a text is the list of its code
--   points, a dictionary is an association list in the order of insertion. `Python.Uuid` follows
--   `str(UUID(text))`; decimal digits outside ASCII, which `int` takes too, are refused there.
-- Config: backend/config.py. `get_collection_name` of a user and a collection type, with Base32
--   and UTF-8 written out. `USER_ID_PATTERN` is at its default; the other settings are not
--   modelled.
-- Mappings: backend/mappings. `Common` has the validation, `DocumentMap`, `ParagraphMap` and
--   `SessionMap` have one function for each method. `Inverse` is about an index from children to
--   parents, which `ParagraphMap` and `SessionMap` keep beside their lists.
-- TaskQueue: backend/task_queue.py. `asyncio` switches only where a coroutine waits, so that the
--   code between two waits is one step: `enqueue`, `take` (a worker takes an item and starts the
--   work), `finish` (the work ends, in one of four ways, a fatal exception included) and the three
--   parts of `close`. The identifiers of `uuid4`, the times and the ways in which work ends come
--   with the steps. A run is any sequence of steps; a step whose conditions do not hold changes
--   nothing. `wait` is not modelled: it waits and answers as `get`.
-- Processing: backend/processing. `Splitter` is paragraph_splitter.py: the lines of a text, the
--   semantic units with their offsets, and the cut where neighbouring units differ. `Cutting` and
--   `Chunker` are chunker.py: the next end of a chunk with the binary search for a prefix that
--   fits, and the loop over the text with the merge of small chunks. The compiled patterns, the
--   sentence encoder with its numbers and the tokenizer are parameters (`Patterns`, `Encoder`,
--   `token_count`); the tokenizer may raise, as `encode` does on a text with a special token.
-- Retrieval: backend/rag/retrieval.py. `Pipeline.retrieve` composes the steps of `retrieve`:
--   `Candidates` (`_normalized_candidates`, which leaves out what is malformed, ambiguous or of a
--   damaged conversation), `Ranking` (`_cross_encoder`, `_collapse_conversations`,
--   `_eligible_candidates`, `_adaptive_k`), `Hydration` (`_hydrate_mmr_head`), `Diversity`
--   (`_mmr`) and `Retrieval` itself (`_final_results`, `_budget_results`). The operations on
--   floats are a parameter (`Floats`; where a theorem needs them ordered it says so), and so are
--   the store's client, the reranker, the tokenizer and `uuid5` (`Services`), of which all but
--   `uuid5` may raise. A dictionary of a candidate is a record whose missing keys are `none`.
--   Logs, timings and traces are left out, and a float that equals an integer is not the index of
--   a segment there.
-- Wizard: backend/wizard/save.py, to `_recover_save`: `Alignment` has the saved paragraphs with
--   their offsets, `Unions` the paragraphs that an edit marks, their groups of neighbours and the
--   parts of the edited text, and `Vectors` the checks of what the providers return, `Recovery`
--   what is taken back when a save fails, with the answers of the store's calls as a parameter. A
--   set of identifiers is a list, by its members; `difflib` is a parameter.
-- Tests: runs of the definitions at concrete inputs.
--
-- Most loops are structural recursion. Those of the chunker have fuel: the length of the text for
-- the search and for the cuts, since each step passes a character, and twice the number of chunks
-- for the merge, whose steps each shorten the list or pass a chunk. A loop without fuel answers
-- `out_of_fuel`, which no exception is. Not modelled: the HTTP interface, the vector store's
-- client, the rest of the wizard, the adapters to models, and the tools around the deployment.
pub mod Prelude
pub mod Python
pub mod Config
pub mod Mappings
pub mod TaskQueue
pub mod Processing
pub mod Retrieval
pub mod Wizard
pub mod Tests
