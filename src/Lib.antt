-- ===== src/Lib.antt =====
-- The parts of the DesireeIA engine that decide which text is generated and what is kept in
-- memory, as executable functions with the theorems that make them right. All paths are under
-- src/DesireeIA.LocaleEngine/src.
--
-- ToolGrammar (core/tool_grammar.h, core/tool_grammar.cpp) is `ToolCallConstraint`, the automaton
-- that lets a model write a tool call only in the right form. ToolGrammar has `State`, `Config`
-- (the tags and the names) and `step`, one function for each case of the switch; `step_fuel`
-- bounds the depth of its calls of itself by 2, and takes the answer of a call at which the bound
-- is met: the character that ends a number, or begins an array's first item, is dealt with by a
-- mode that makes no call. Accept has the methods: `reset`, `give_up`, `accept`, `allows`,
-- `armed`, `in_plain_string`. A step that returns false is `none`; the state that the C++ has
-- changed by then is thrown away by each of its callers, too.
--
-- JsonGrammar (core/json_grammar.h, core/json_grammar.cpp) is `JsonSchemaConstraint`. Start has
-- `start_value` and `can_end`, Member the cases of `step` for each kind of frame, Step the loop,
-- and Constraint the methods. The compiled schema is a `Grammar`. `start_value` takes a bound on
-- the depth of its recursion, a parameter, and is `none` where it is met; a grammar whose unions
-- do not come back to themselves has a bound that is never met, one more than the longest chain
-- of unions. The loop of eight rounds is the code's own; what it comes to after the last round is
-- an argument of `step_rounds`. The lists of node indices that the C++ reads out of range have no
-- counterpart: `node_at` gives an empty node there. The lengths of keys, the counts of items and
-- of characters have no upper bound, where the C++ has 32-bit integers.
--
-- JsonGrammar/Compile is `configure` and `compile`, which make the grammar of a schema text:
-- Builder has `nodes_` and `ref_memo_`, which every part takes and gives back, and the errors;
-- Order `std::sort` and `std::unique`; Object and Schema the parts of `compile`, each of which
-- takes `compile` at the next depth as an argument. The depth of 40 is the code's own bound.
-- Where the C++ leaves the order of equal keys open, they keep the order they had.
--
-- Jinja (core/jinja.h, core/jinja.cpp) is the JSON that schemas are read with: Values has `Value`
-- and `get`, Text and Parser have `JsonParser` and `parse_json`, Writer `to_json_sep` without
-- indentation. The position is what is left of the text, and the bound on the depth of the calls
-- is that of DecisionJson. A floating-point number is its text; what it is written as and cut to
-- is a parameter, `Doubles`.
--
-- HybridTier (ssd_tier/hybrid_tier.h, ssd_tier/hybrid_tier.cpp) is the cache of tensors, raw
-- tensors and experts in front of a model reader. Lru has the list in order of use with its
-- operations; Tensors, Raws and Experts have the methods. The reader (`ModelReader`, an
-- interface) is a parameter of the tier's state, and gives the same answer whenever it is asked
-- for the same name. The loops that make room take one round more than there are entries; each
-- round takes one entry out or changes nothing, so `none` says that the C++ loop goes on for
-- ever. Usage is the usage file, over the files of Mirror: how the streams of the C++ read a line
-- and a number of 32 bits is written out. The same code is in the two expert stores, whose
-- UsageFile applies it to their maps. The counters wrap at 32 or 64 bits; `raw_bytes` does not.
--
-- The token trie is JsonGrammar/Trie: `PieceTrie::build`, `walk` and `mask`. The nodes, which the
-- C++ has in one array with the indices of the first child and the next sibling, are a tree, and
-- the chain of tokens that end at a node is a list.
--
-- Mirror (ssd_tier/mirror_manager.h, ssd_tier/mirror_manager.cpp) is `MirrorManager`: Files has
-- the reads and writes of a file at an offset, with the behaviour of the C++ streams at the end
-- of a file, Manager the methods, and Sync `full_sync`, whose loop takes at most as many rounds
-- as the file has bytes. Which paths can be opened and which offsets the system can seek to are a
-- parameter; an offset of 2^63 or more cannot be sought, since it is negative as a `streamoff`.
-- Writes to an open file do not fail.
--
-- Bpe (tokenizer/bpe_tokenizer.h, tokenizer/bpe_tokenizer.cpp) is `BpeTokenizer`: ByteMap the map
-- between bytes and visible characters, Chunks the cut into chunks, Merge the merges, Encode the
-- vocabulary and `encode`. Loops over a text are bounded by its length. The order that
-- `std::sort` leaves open between special tokens of the same length is fixed here.
--
-- Spm (tokenizer/spm_tokenizer.h, tokenizer/spm_tokenizer.cpp) is `SpmTokenizer`: Spm has the
-- vocabulary, `load` and `piece`, Merge the symbols, the queue of pairs and the loop over it,
-- Encode the rest of `encode`. The scores are of any type with an order, `Order`; where two pairs
-- of the queue are equal, the one pushed last is taken. The loop takes as many rounds as there
-- are pairs and two for each symbol. The special tokens are one list by falling length, where the
-- C++ has one for each first byte.
--
-- DecisionJson (models/decision_json.h) is the JSON of the decision models: Values the values,
-- Text and Parser the functions of `Parser`, Writer `write_string` and `write_value`. The
-- position is what is left of the text. The functions that call each other take a bound on the
-- depth of their calls, twice the length of the text and one, and `stuck` is the result where it
-- is met. A number is its source text.
--
-- ExpertStore (core/engine.h, expert/expert_store.cpp) is `ExpertStore`, the cache of experts:
-- its operations, and Threads the engine's thread in `fetch` and the thread of
-- `prefetch_worker_loop`, where a step is what a thread does under one lock, or a read, and a
-- list of events is an order of steps. `fetch_union` takes what the other thread does between a
-- `fetch` and the lock after it; each `fetch` in it is one step. The list and its operations are
-- those of HybridTier. What the model reader and the tier answer is a parameter.
--
-- SsdTier (ssd_tier/ssd_tier.h, ssd_tier/ssd_tier.cpp) is `SsdTier`, a cache of blocks of 4096
-- bytes in front of a model file and its mirror, with the list of HybridTier and the files of
-- Mirror. `none` says that a loop of evictions does not end. The capacity is taken not to be
-- negative.
--
-- TieredStore (ssd_tier/tiered_expert_store.h, ssd_tier/tiered_expert_store.cpp) is
-- `TieredExpertStore`, a cache of experts in memory over SsdTier, with the list of HybridTier:
-- the operations, and Copies the copies between floats and bytes. `none` says that a loop of
-- evictions, here or in the tier, does not end. Run has any calls, one after the other.
--
-- Prelude has the shared types, and the lemmas on lists, numbers and texts. JsonGrammar reads its
-- schemas with Jinja. Apart from that, from the list that the caches share, from the files that
-- SsdTier shares with Mirror, and from the calls of SsdTier by TieredStore, the parts do not call
-- each other; the engine asks a constraint of `allows` for each token, and tells it the token
-- that was taken by `accept`.
--
-- Not modelled: `state_key` (core/json_grammar.cpp), a hash that also reads registers which
-- earlier states of a frame have left behind; the interpreter of templates, the times, locks,
-- `encode_viterbi` (tokenizer/spm_tokenizer.cpp), which an environment variable asks for, the
-- Hugging Face tokenizer, and everything that computes with floating-point numbers, such as the
-- sampler, the kernels and the networks.

pub mod Prelude
pub mod ToolGrammar
pub mod JsonGrammar
pub mod HybridTier
pub mod Mirror
pub mod Bpe
pub mod DecisionJson
pub mod ExpertStore
pub mod SsdTier
pub mod TieredStore
pub mod Jinja
pub mod Spm
