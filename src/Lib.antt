-- ===== src/Lib.antt =====
-- A verification library for reldir, a database whose rows are JSON files under version control.
--
-- The program. The engine (crates/reldir-core/src) keeps rows as files and their history in a store of
-- content-addressed objects (store/). A state of the database is a Merkle tree of nodes, each of one
-- encoding; revisions form a graph through their parents; documents edited on two sides are merged
-- member by member; and what a change would leave behind is judged through an overlay before it is
-- written. The command line, the servers and the bindings call the engine.
--
-- The files, from the repository's root:
--   Base                 shared names, lists, tests on numbers, well-founded order, bits
--   Store.Corruption     store/error.rs: `Corruption`; the result of decoding
--   Store.Codec          store/codec.rs: `put_varint`, `varint_len`, `Cursor` and its reads; `Cursor`
--                        is threaded through a reader monad, and an error ends the reading
--   Store.JsonString     store/codec.rs: `push_json_string`, byte by byte
--   Store.Text           what the store uses of `str`; store/node.rs: `valid_path`,
--                        `valid_table_name`, `table_of`
--   Store.Node           store/node.rs: the node types, `encode`, `decode`; each loop of `decode` is
--                        `collect` with the body of the loop
--   Store.Node.Identity  store/node.rs: `leaf_identity`, `state_identity`, the `identity` methods,
--                        `bucket`; SHA-256 is the parameter `digest`
--   Store.Loader         store/node.rs: `load`, the typed loaders, `load_table`, `load_mid`, `load_leaf`,
--                        `placed`; what `Store::get` gives for an id is the parameter `get`
--   Store.IdSet          sets of ids, sorting and `dedup`, as store/dag.rs uses them
--   Store.Dag            store/dag.rs: `ancestors`, `is_ancestor`, `merge_base`, `prune_ancestors`; what
--                        `revision::load` gives for an id, its parents or an error, is the parameter
--                        `parents`
--   Json                 serde_json's `Value` and `Map`, as the crate builds them: numbers by their
--                        lexeme, members in their order, equality of maps in any order
--   Pointer              schema/path.rs: `escape_pointer`, `pointer_tokens`; merge.rs: `split`
--   RefPath              schema/path.rs: `RefPath::occurrences`, `walk`, `iterates`, `column`,
--                        `from_steps`
--   RefPath.Parser       schema/path.rs: `Display` of `RefPath`, `Parser`, `RefPath::parse`; what the code
--                        calls of serde_json is the parameter `Serde`
--   Merge                merge.rs: `merge_value`, `merge_members`, `merge_values`
--   Merge.Markers        merge.rs: `block`, `has_conflict_markers`
--   Overlay              engine/fs/overlay.rs: `Overlay` as a `Source`; the tree below is a parameter,
--                        and Overlay.Tree says what it means to show some files
--   Files                engine/fs/mod.rs: the trait `Fs`, as a record of operations on an unknown world,
--                        and its promises, `IsFs`; an operation gives its result and the world after it.
--                        Files.Memory is such a file system, in which any operation can be made to fail
--   Journal              engine/journal.rs: the data of a change, and the guards of its paths
--   Journal.Record       `encode`, `decode`, `validate`; JSON and SHA-256 are the parameters `Format`
--   Journal.Preflight    `preflight`
--   Journal.Apply, Journal.Placing   `apply` and what it calls
--   Journal.Commit       `commit`, `finish`, `discard`; the id and the time are parameters, and what
--                        follows a commit (`Observer`) is one too
--   Journal.Recover      `pending`, `recover`
--   Store.Revision       store/revision.rs: `Origin`
--   Exact                value.rs: `Exact::parse`, `Exact::plain`, `normalize_numeric`; exponents are
--                        integers without a bound
-- (paths of sources are below crates/reldir-core/src). Under each, child modules hold the lemmas, named
-- for what they prove, and Examples the tests and the runs at concrete inputs.
--
-- Integers. A `u64` is a natural number, and where the code shifts or adds with wrap-around or
-- saturation the bound is written out. Bytes are natural numbers, text is its UTF-8 bytes.
--
-- Fuel. `decode` takes one round of fuel for each byte of its input: every round of its loops reads a
-- byte at least. A merge takes as much as ours is nested deep: each level of `merge_members` takes one.
-- A walk over history takes a round for each revision it visits, and visits none twice, so the number of
-- revisions in the history is enough. The loops of the path parser take one turn more than the text has
-- bytes: each turn reads one. `varint` has at most ten rounds, as in the source.
--
-- A crash. An operation that fails may leave the path it acts on in any state, and any operation may
-- fail; a process that dies is one whose operations all fail from there on. What a power loss takes of
-- data that was not synced is not modelled.
--
-- Not modelled: symbolic links on the way of a commit; what the file system, SQLite, compression and
-- SHA-256 do; the rest of merge.rs (`merge_documents`, `mark`, `set`), which edits text; the walks over
-- the nodes of trees (`reachable`, `last_known`); revisions but for their origin, packs, the order and
-- arithmetic of exact numbers, the rest of the schemas, SQL, and the crates around the engine.
pub mod Base
pub mod Store
pub mod Json
pub mod Pointer
pub mod Merge
pub mod Overlay
pub mod RefPath
pub mod Files
pub mod Journal
pub mod Exact
