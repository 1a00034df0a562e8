-- ===== src/Hooks.antt =====
-- The event system of the API client: botocore/hooks.py. `Trie` is `_PrefixTrie`, with its laws in
-- `Trie.Search`, `Trie.Matches` and `Trie.Removal`; `Emitter` is `HierarchicalEmitter`, with its laws
-- in `Emitter.Cache` and `Emitter.Counted`.
pub mod Trie
pub mod Emitter
mod Samples
