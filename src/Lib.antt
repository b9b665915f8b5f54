-- ===== src/Lib.antt =====
-- GNES (gnes/): a search system whose services exchange protobuf messages over sockets. A flow
-- (gnes/flow) joins services into a graph and chooses their sockets; a client sends requests made
-- by the request generator (gnes/proto) in batches (gnes/helper.py); the messages travel with their
-- bytes squeezed out into frames (gnes/proto); routers (gnes/router, gnes/service/router.py) split
-- messages and collect the parts of a request; ids come from the generators of gnes/uuid.py.
--
-- Prelude: shared names, lists, dicts, texts, and methods that change a state or raise.
-- Flow: gnes/flow/__init__.py. Flow/Data has the state: `_service_nodes` and `_service_edges` are
--   dicts in insertion order, sets are lists, `Exec` is a method on a flow. Flow/Endpoints has
--   `_parse_service_endpoints` and `set_last_service`, Flow/Args `_get_parsed_args`, Flow/Edit
--   `__init__`, `add`, `set` and `remove`, Flow/Graph `_build_graph` and `build`. The proofs are in
--   Flow/Asking, Flow/Growth, Flow/Addition, Flow/Removal, Flow/Rewiring, Flow/Setting, Flow/Invariant,
--   Flow/Session, Flow/Building, Flow/Built, Flow/Naming and Flow/Options. What argparse makes of a
--   list of arguments is the parameter `Parser`. `copy.deepcopy` is `with_copy`.
-- Service: gnes/service/base.py. Service/Socket has `SocketType`, Service/Handler `MessageHandler`,
--   Service/Loop `dump`, `_handler_control` and the loop of `_run`. A socket is the queue of the
--   messages that wait at it, and a tick is what arrives before a poll and the times that `dump`
--   reads; a poll at which nothing waits does nothing. The handlers and hooks of a subclass are the
--   functions of a `Setup`. The proofs are in Service/Progress, Service/Effects, Service/Drain and Service/Ending.
--   Service/Manager has the services of `ServiceManager`, with its random ports as the values of a
--   function, and Service/Parallel how they reach each other.
-- Composer: gnes/composer/base.py. Composer/Layers has the components of a YAML file, Composer/Rules
--   the rules of `_add_router`, Composer/Wiring their choice, Composer/Build `build_layers`. The
--   random ports are the values of a function at consecutive numbers. The proofs are in
--   Composer/Links, Composer/Joined, Composer/Routed, Composer/Gathered and Composer/Routers.
-- Uuid: gnes/uuid.py. The clock is the list of its readings to come, and a wait that outlasts them
--   is an error of the model.
-- Proto: `extract_bytes_from_msg` and `fill_raw_bytes_to_msg` of gnes/proto/__init__.py.
-- Requests: `batch_iterator` of gnes/helper.py and `RequestGenerator` of gnes/proto/__init__.py.
--   Slices are made on fuel, the length of the data, which is enough since a slice takes an item.
-- Router: gnes/router/base.py, gnes/router/map.py, `merge_routes` and `RouterService`. What a router
--   makes of a complete request is a parameter of the service.
-- Indexer: `ListKeyIndexer` of gnes/indexer/chunk/helper.py, with the counters of `update_counter`
--   in gnes/indexer/base.py.
--   Indexer/Hamming, Indexer/Buckets and Indexer/Results model gnes/indexer/chunk/hbindexer: memory is
--   a list of bytes with the number of entries it has room for; `max_heapify` and the loop of
--   `heap_push` run on fuel, the number of results, which bounds the depth of the heap; the bits
--   of a byte are counted on the fuel 8. The proofs are in Indexer/Room, Indexer/Stale,
--   Indexer/Sifting, Indexer/Tally, Indexer/Sinking, Indexer/Offering, Indexer/Scanning and
--   Indexer/Nearest.
--   Indexer/Trie models the tree of gnes/indexer/chunk/bindexer: a node is reached by one pointer,
--   so a pointer is the subtree it leads to. The proofs are in Indexer/Lookups, Indexer/Apart and
--   Indexer/Listing.
--   Indexer/Arrays and Indexer/Ranking model `NumpyIndexer` of gnes/indexer/chunk/numpy.py, with the
--   functions of numpy in the record `Numpy`; the matrix of scores that numpy makes of the
--   queries and the rows, or that it raises, is a parameter.
--   The proofs are in Indexer/Adding, Indexer/Ranked and Indexer/Answered. Service/Indexing models
--   `_handler_index` of gnes/service/indexer.py, with the dict indexer of gnes/indexer/doc/dict.py,
--   and Service/Indexed and Service/Documents have the proofs.
-- Examples: the theorems at concrete inputs.
--
-- Not modelled: sockets, processes and threads, protobuf's serialization, the machine-learning
-- models of encoders, preprocessors and indexers, the exporters of a flow and of the composer, the
-- graph of neighbours of the trie indexer, the scores of results, the clients,
-- and a `dump` of a model that raises: the flag is cleared before, so that change is lost.
pub mod Prelude
pub mod Service
pub mod Flow
pub mod Uuid
pub mod Proto
pub mod Requests
pub mod Router
pub mod Composer
pub mod Examples
pub mod Indexer
