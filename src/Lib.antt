-- ===== src/Lib.antt =====
-- js-ipfs: the core logic of the packages under packages/, as functions, state machines and
-- traversals, with what each part promises.
--
-- The parts and the code they follow:
--
-- - Prelude: the helpers that all parts share: Boolean tests on numbers, lists, texts as lists of
--   UTF-16 code units, dictionaries as association lists, results of code that may throw, and bit
--   arithmetic.
-- - Files.Write: packages/ipfs-core/src/components/files/write.js. Async iterables are lists of
--   chunks; `write` is followed up to its call of the importer, of which it is the input. The
--   exporter is a parameter (`Destination.content`) with the ranges that it promises
--   (`IsExported`). The generator of zeros has no end in the source; here it gives `pulls` chunks
--   of `chunk_size` bytes, and the theorems ask that this covers what is needed.
-- - Files.Paths: toPathComponents in files/utils/to-path-components.js, its regular expression
--   read as a scanner, and the part of `toMfsPath` (files/utils/to-mfs-path.js) that normalises a
--   path.
-- - Files.Mode: the mode arithmetic of files/chmod.js and
--   packages/ipfs-core-utils/src/files/format-mode.js. Its regular expression is read as three
--   optional runs of letters.
-- - Files.Tree: addLink, removeLink and updateTree (files/utils) on plain directories over
--   content-addressed blocks. The packages that encode blocks and the blockstore are one
--   interface (`Ipld`) with laws (`IsIpld`); the operations on shards are arguments (`Sharding`).
-- - Files.Shards: the removal of a name from a sharded directory, in files/utils/remove-link.js
--   with updateHamtDirectory of hamt-utils.js, and in Files.Shards.Loading its generatePath, with
--   fuel for the levels (`still_runs` when there are more). The buckets of the package
--   hamt-sharding are references into a heap (`Hamt`); `digits` are the prefixes that the hash of
--   a name gives. A reader is modelled by `search`, to a depth.
-- - Files.Commands: rm.js, cp.js, mv.js and mkdir.js of packages/ipfs-core/src/components/files,
--   with the lookups of files/utils/to-mfs-path.js and to-trail.js. The package
--   ipfs-unixfs-exporter is an interface (`Exporter`); the theorems say what they need of its
--   answers (`IsResolved`).
-- - Port.Transport: packages/ipfs-message-port-client/src/client/transport.js and query.js as a
--   state machine: the calls of the transport, its timers and the responses are events, and the
--   calls that settle a promise are listed, of which the first one counts.
-- - Port.Iterable: the iterables of packages/ipfs-message-port-protocol/src/core.js, both ends of
--   the channel, and the errors of error.js.
-- - Port.Server: packages/ipfs-message-port-server/src/server.js, with each `await` of
--   `handleQuery` as the end of a step. What the services resolve or reject are events.
-- - Adding: packages/ipfs-core/src/components/add-all/utils.js, the strings that choose a
--   chunker.
-- - Adding.Candidates: normalise-content.js and normalise-candidate-single.js of
--   packages/ipfs-core-utils/src/files, of which the iterables are lists. The conversions of
--   JavaScript and ipfs-unixfs are parameters.
-- - Resolving: the generator `resolve` of packages/ipfs-core/src/utils.js. The blockstore with
--   the codecs is an interface (`Nodes`).
-- - Bootstrap: the commands of packages/ipfs-core/src/components/bootstrap on the configuration
--   of the repository.
-- - Tracking: packages/ipfs-http-client/src/pubsub/subscription-tracker.js, the subscriptions of
--   a client.
-- - Grpc: the messages in which packages/ipfs-grpc-client/src/core-api/add-all.js sends files to
--   packages/ipfs-grpc-server/src/endpoints/add.js, and the frames of
--   packages/ipfs-grpc-server/src/utils/web-socket-message-channel.js. The candidates are those
--   that `normaliseInput` yields; the codecs of protobuf, `paramCase` and `JSON.stringify` are
--   parameters, of which Grpc.Add.Wire has what the fields of
--   packages/ipfs-grpc-protocol/src/root.proto let through (`IsWire`): whole seconds of 32 bits
--   with the sign, modes and nanoseconds of 32 bits, and well-formed texts.
-- - Pins: packages/ipfs-core-utils/src/pins/normalise-input.js, and addAll and rmAll of
--   packages/ipfs-core/src/components/pin. The pins themselves are kept by the package ipfs-repo,
--   an interface (`PinStore`).
-- - Refs: packages/ipfs-core/src/components/refs/index.js, the depth-limited traversal of links.
--   `getLinks` is a parameter.
-- - Ipns: packages/ipfs-core/src/ipns: resolver.js, publisher.js, index.js, one round of
--   republisher.js, and the subscriptions of routing/pubsub-datastore.js. The routing, the
--   datastore and the package ipns are parameters (`Network`, `Platform`).
-- - Service: packages/ipfs-core/src/utils/service.js, as a state machine: each `await` ends a
--   step, the activations and deactivations under way are counted, and both may resolve and
--   reject.
-- - Registry: packages/ipfs-core-utils/src/multihashes.js, multicodecs.js and multibases.js, one
--   model of two tables for the three classes.
-- - Cache: packages/ipfs-core/src/utils/tlru.js and
--   packages/ipfs-core-config/src/utils/lru-datastore.js, both over the package hashlru, which is
--   an interface (`Lru`) with laws (`IsLru`): it may drop any entry but the one that was just
--   set. The writes of the datastore below may reject, and a batch is the one of that datastore.
--
-- How they interact: `files.write` reads paths by Files.Paths and hands its bytes to the
-- importer; the modes that it and chmod store are those of Files.Mode; the registries supply its
-- hasher; a node keeps its network behind a Service; Ipns.Names puts what it publishes into the
-- TLRU cache of Cache.Tlru, whose theorems its own rest on; Files.Tree changes the directories
-- that the paths of Files.Paths lead through, and Files.Commands composes its operations into the
-- new MFS root.
--
-- Numbers are natural numbers; the one place where the code goes below zero, the end of
-- `subarray` in limitAsyncStreamBytes, is written as the number of bytes that it drops; a mode is
-- below 2 ^ 12. Recursion is structural throughout, with these bounds: the levels of
-- `Files.Shards.Loading.generate_path` and of a search in shards, `pulls`, the rounds of
-- `Port.Iterable.consume`, of which more than there are items are enough, and the `rounds` of an
-- IPNS resolution without a depth limit, for which `none` says that it still runs; a resolution
-- that ends within 32 records needs no more than 32 rounds.
--
-- Not modelled: the listing and the metadata of MFS, the writing of shards, the choice of the
-- IPNS routing, the listing of pins, garbage collection, the services behind the message port,
-- the dispatch and the client's transport of gRPC, the HTTP gateway and server, the requests of
-- the HTTP client, the command line, and the wiring of a node. Network, disk, cryptography and
-- the packages ipfs-unixfs, dag-pb, libp2p and hashlru are outside of the repository.
pub mod Prelude
pub mod Files
pub mod Service
pub mod Registry
pub mod Bootstrap
pub mod Cache
pub mod Pins
pub mod Port
pub mod Adding
pub mod Resolving
pub mod Tracking
pub mod Grpc
pub mod Refs
pub mod Ipns
