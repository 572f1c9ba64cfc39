-- ===== src/Lib.antt =====
-- A model of ngbigcache: a local cache of byte entries in a few large arrays, the messages that the
-- nodes of a cluster exchange, and the node with its connections to the other nodes.
--
-- Parts and files
--   Base          tests on numbers, lists, Go's `copy`, slice expressions and encoding/binary,
--                 integers, association lists, sync.Map, and the outcome of a Go call: it returns,
--                 panics or waits for ever on a lock
--   Gods          the ordered tree and the set of github.com/emirpasic/gods as parameters with the
--                 laws of their documentation; Gods.Assoc and Gods.Keys are instances by lists
--   Queue.FreeList     bigcache/queue/freeList.go: blocks that were freed (add, find)
--   Queue.BytesQueue   bigcache/queue/bytes_queue.go: Push, Get, Peek, Pop, Delete, Reset
--   Cache.Encoding     bigcache/encoding.go: an entry as bytes
--   Cache.Config, Cache.Fnv   bigcache/config.go, utils.go, stats.go, fnv.go
--   Cache.Library      what a cache takes from outside: trees, sets, the hasher, and the seconds
--                      of a time.Duration
--   Cache.Ttl          bigcache/ttl.go: the keys that expire at a second, and the timer
--   Cache.Shard        bigcache/shard.go: get, set, del and the rest; Cache.Shard.Evict has
--                      evictDel and the goroutine of ttl.go
--   Cache.BigCache     bigcache/bigcache.go: the shards; Cache.BigCache.Abstract is the table of
--                      keys and values that a cache stands for; Cache.BigCache.Timeless is about entries
--                      that do not expire
--   Cache.Iterator     bigcache/iterator.go; Cache.Iterator.Reference reads the entries of the
--                      shards in a plain loop
--   Message       message/defs.go; Message.Put and Message.GetRsp are putMessage.go and
--                 getRspMessage.go, Message.Json the messages that encoding/json encodes and those
--                 without contents, Message.Any the interface NodeMessage
--   Utils.SliceList    utils/sliceList.go
--   Utils.NodeId       utils/utils.go: GenerateNodeId, with the random numbers as a function
--   Comms.Connection   comms/connection.go: NewConnection, WrapConnection, SendData, Write, Read,
--                      ReadData, Shutdown
--   Comms.Frame        cluster/remoteNode.go: a message as bytes on the wire
--   Cluster.Types      cluster/config.go and the types and constructors of
--                      cluster/clusteredBigCache.go and cluster/remoteNode.go
--   Cluster.Queues, Cluster.Wire   the queues of a remote node, and the goroutines between them and
--                      the connection (networkConsumer, networkSender)
--   Cluster.Ping       pings, pongs, and the count of those that fail
--   Cluster.Verify     handleVerify, tearDown and the events of the node
--   Cluster.Sync       handleVerifyOK and the exchange of lists of nodes
--   Cluster.Handlers   the handlers of get, put and delete messages, and handleMessage
--   Cluster.Membership Start, ShutDown, listen, join and connectToExistingNodes
--   Cluster.Client     Put, Get, Delete, Statistics, and the goroutines behind their channels
--   Cluster.Steps      a node as a whole: the calls of its user and the rounds of its goroutines as
--                      a relation, and the nodes that come of a new one by it
--   Tests         the theorems at concrete data
--
-- A cache hashes a key and calls the shard that the low bits of the hash pick. The shard's map takes
-- the hash to an index of its queue, where the wrapped entry stands; an expired entry is found by
-- its timestamp in the expiry table. The queue asks its free list for a block before it uses the
-- space after its tail.
--
-- A node of a cluster has a cache and a list of remote nodes. Put stores in the cache and puts a
-- message for each remote node that is not passive into a channel; replication moves it to the queue
-- of the remote node, networkSender writes it to the connection, networkConsumer at the other end
-- reads it into a queue, and handleMessage there calls its handler, which works on the cache. Get
-- asks the remote nodes where the cache has nothing, and takes the first reply. A remote node is in
-- the list once its verification was admitted, until tearDown.
--
-- A method is a function from the state and its arguments to the outcome, with the state it leaves
-- in it. A byte and an `int` that is never negative are natural numbers; a sum of a fixed width
-- has its remainder written out, and counters and lengths of arrays stay below 2^63. Objects
-- behind pointers in the free list are numbered cells, and remote nodes are places in a list of
-- objects. A lock is the flag `locked` of a shard. The calls of the removal callback are a list in
-- the shard. Loops are recursion on the list they run over, or on a count that the source gives (8
-- size lists, the number of shards); the eviction loop runs over the readings of the clock, and
-- returns nothing where there are fewer than passes; SendData runs over the answers of the
-- operating system in the same way. The loop of networkConsumer has a number of rounds, of which
-- one more than the bytes of the stream is enough, and says whether it returned within them. A
-- goroutine is its rounds, each a function on the node, so that every interleaving of rounds is a
-- sequence of these functions; inside a round nothing else happens.
--
-- Cluster.Steps puts the rounds together: a step is a call of the user or one round of one goroutine,
-- on any remote node, and the arguments of the round are chosen anew in each step. It takes more
-- steps than the program, since it does not ask whether a goroutine was started; what holds of
-- all its steps holds of the program's. The channels of replication and of the
-- requests have the messages that are not yet sent; a round of one of their five goroutines sends any
-- of the first five, which are those that the goroutines may have taken.
--
-- Not modelled: run.Group, which stops the goroutines of a remote node together (a step may stop
-- it); the bounds of the channels, and so a send that waits for room; the calls of GenerateNodeId
-- by the cluster, where its result is an argument; the loggers, and log lines. encoding/json,
-- strconv.Itoa and the join of a host and a port are parameters. The theorems on the layout of a
-- queue are about queues from which nothing was popped: `removeOldestEntry`, the one caller of
-- `Pop`, has no caller itself.
pub mod Base
pub mod Gods
pub mod Queue
pub mod Cache
pub mod Message
pub mod Utils
pub mod Comms
pub mod Cluster
pub mod Tests
