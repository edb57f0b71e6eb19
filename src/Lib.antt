-- ===== src/Lib.antt =====
-- The notes trees of crates/core/src/imt.rs: the incremental Merkle tree over the BN254 scalar
-- field and the trees that stand on it, with proofs that they compute the Merkle tree of their
-- leaves, keep it through every sequence of calls, and make and check inclusion proofs of it. With
-- them their byte formats, the encodings of field elements and the calldata binding.
--
-- Parts. `Imt` keeps every row of a binary Merkle tree and answers proofs for any place.
-- `OrderedMerkleTree` wraps it for callers that address leaves by place, `IndexedMerkleTree` adds a
-- reverse index and refuses a leaf twice. `NotesFrontier` keeps one node for each level, enough to
-- append, to report the root and to emit the roots of completed shards. `ShardedNotesTree` keeps
-- the completed shards as roots under a cap tree and one live shard whole, and carries the
-- witnesses of the owned notes across the roll-over of their shard. The trait
-- `AppendableNotesTree` is what callers use of `IndexedMerkleTree` and `NotesFrontier`.
-- `InclusionProof` passes between all of them and the verifier. Frontier and sharded tree are
-- stored as bytes and restored from them, with field elements in the big-endian form of
-- `fr_to_be_32`; packed elements in the same form are the words that `bind_calldata_packed` binds.
-- `build_bound_pending_commitment` appends a batch to any tree of the trait and binds the batch, the
-- roots and the counts.
--
-- Files.
--   Prelude, Outcome, Result: shared names and lemmas; results with the errors of `TreeError` and a
--     panic, and results with any error.
--   Bytes: integers as little-endian and big-endian bytes.
--   Field: the field as an interface: an element type with zero, decidable equality and the node
--     hash. `Fr` of ark-bn254 and `poseidon` are parameters, nothing is assumed of the hash.
--   Geometry: `tree_capacity`, `zero_roots`, `zero_roots_from`.
--   Merkle: the specification: subtrees, root, path and frontier of a function from places to nodes.
--   Proof: `InclusionProof`, `verify_path`, `verify_proof_at_depth`.
--   Imt: the operations of `Imt`, one function each, with a child module for each group of proofs.
--     `tree_of` of Imt/Canonical is the state that a list of leaves determines; Imt/Client runs any
--     sequence of calls.
--   Frontier: `NotesFrontier`; `frontier_of` of Frontier/Canonical is its state for a list.
--   Assoc: hash maps and ordered maps as association lists.
--   Sharded: `ShardedNotesTree`; Sharded/Notes has its operations on owned notes. `Holds` of
--     Sharded/Holds says which list of leaves a state stands for and what is known of each owned
--     note. The rounds of `append_many` recur on fuel, as many as there are notes: a round takes at
--     least one, since a live shard is never full between calls.
--     Sharded/Stateless has `sharded_root`, on fuel of one for each leaf: a chunk has at least one;
--     Sharded/Flat has `sharded_witness`.
--   Frontier/Snapshot: the bytes of a frontier, `encode_snapshot` and `from_snapshot_bytes`.
--   Snapshot: the readers that both formats share; Snapshot/Codec is `ShardedTreeSnapshot`.
--   Sharded/Restore: `snapshot`, `from_snapshot` and their forms over bytes.
--   Wire: the byte forms of crates/core/src/secret_field.rs and the big-endian codecs of
--     crates/core/src/field.rs, over an element type with its integer below the
--     modulus; Wire/Packed has the packed forms.
--   Encoding: the decimal and hexadecimal decoders of crates/core/src/encoding.rs; Encoding/Canonical
--     has `Bn254Fr::try_from_dec`.
--   SecretField: the residue arithmetic of crates/core/src/secret_field.rs and
--     `try_fr_from_decimal_bytes` of crates/core/src/field.rs, its chunks on fuel of one for each
--     character.
--   Calldata: crates/core/src/calldata.rs. The chunks are hashed on fuel, one for each word, and a
--     chunk has at least one word.
--   Pending: crates/core/src/witness/bound_pending.rs. The builder is cut where the tree changes:
--     `append_checked` before, `bind_appended` after.
--   Ordered, Indexed: the two wrappers. A hash map is a function into `Option`.
--   Appendable: the trait as a record of operations and laws, with both implementations;
--     Appendable/Agree runs both on the same batches.
--   Toy: two small fields for the tests.
--
-- How state corresponds. A `&mut self` method is a function from the old state to an `Outcome` of
-- the new one; a `Vec` is a list and an index out of bounds is a panic; `usize` has 64 bits, so
-- `1usize.checked_shl(depth)` gives a capacity exactly below depth 64, and the counts stay at or
-- below that capacity, so no sum of them wraps. Loops over levels recur on the number of levels
-- left.
--
-- Not modelled: the arithmetic of the field, SHA-256 and Keccak-256 (third-party) and the rounds of
-- Poseidon (constants that nothing here depends on), all of them parameters; `Display` for the
-- errors and capacity hints; `from_ark` and `into_ark`, which copy limbs, and the conversions
-- through num-bigint; keys, signatures and ciphers of crates/core and the rest of
-- crates/core/src/witness.rs, which makes structures of decimal strings; and the other crates:
-- prover, witness, signet, wasm and the bindings.
pub mod Prelude
pub mod Outcome
pub mod Pending
pub mod Assoc
pub mod Bytes
pub mod Calldata
pub mod Encoding
pub mod Field
pub mod Geometry
pub mod Proof
pub mod Result
pub mod Merkle
pub mod Imt
pub mod Frontier
pub mod SecretField
pub mod Sharded
pub mod Ordered
pub mod Indexed
pub mod Appendable
pub mod Snapshot
pub mod Toy
pub mod Wire
