-- ===== src/Lib.antt =====
-- Verification library of the edge-cloud storage system: clients ask a load balancer for an edge node, edge
-- nodes keep files in a cache in front of S3 and form a peer-to-peer network, and a registry watches that network.
--
-- The program's parts and the files that model them:
--   * LoadBalancer.antt: load_balancer/services/balancing.go, balancing_services.go and balancing_structs.go,
--     with the login of load_balancer/login/login.go. `Balancer` is BalancingServiceServer:
--     the map of loads, the map of heartbeats, the time of the last check and the sequence number. Each handler is
--     a function: get_edge (GetEdge), notify_job_end (NotifyJobEnd), heartbeat (Heartbeat), pick_edge_server
--     (pickEdgeServer), check_for_dead_servers (checkForDeadServers). Its children treat the choice of a
--     server (Pick), the check (Expiry), the loads (Loads), sequences of requests (Requests) and two
--     handlers at once (Race).
--   * Registry.antt: registry/services/registry_services.go, registry_structs.go and network_monitor.go.
--     `RegistryService` holds the connections and the heartbeats of the peers; peer_enter, heartbeat,
--     check_for_dead_peers and find_neighbours_for_peer are PeerEnter, Heartbeat, checkForDeadPeers and
--     findNeighboursForPeer. Peers treats the two maps.
--   * Registry/Graph.antt and Registry/Search.antt: registry/services/graph.go, that is buildGraph and
--     FindConnectedComponents. A nil map is `none`, and a write to it panics.
--   * Registry/Unify.antt: solveNetworkPartitions, unifyNetwork and unifyTwoComponents of network_monitor.go.
--   * Edge/Cache.antt, Edge/Cache/Eviction.antt and Edge/Cache/Writing.antt: edge/cache/cache.go. Files stand on
--     a heap, since the map and the list share them; the list is a slice, that is a backing array with a length;
--     the mutex is a Boolean, and locking it while it is held is the outcome `deadlock`. The disk is a map
--     from names to bytes. Filter is ComputeBloomFilter. Valid, Queue, Removal
--     and Sweep treat the agreement of map and list, Deadlock the release of space.
--   * Edge/Peer.antt: edge/peer. Requests is file_request_cache.go, the map of the requests that were seen;
--     Network is network.go with the handlers Ping, NotifyBloomFilter, AddNeighbour and GetNeighbours of
--     peer_services.go; Join is how a new peer connects to the neighbours that the registry names, over the maps of all
--     nodes; Lookup is neighboursFileLookup of peer.go; Services holds FileLookup and DeleteFile, Transfer DownloadFromEdge; Calls holds
--     the heartbeats and notifications that a node sends, also those of edge/server/server.go; LookupServer is
--     lookup_server.go. Contacts, Stranger,
--     Pings, Silence and Hops hold the proofs on whom a lookup reaches, on silent neighbours and on the TTL.
--   * Edge/S3.antt: edge/s3_boundary/s3_streams.go, with Upload for Read and Download for WriteAt and Flush, and
--     Interface for edge/s3_boundary/s3_interface.go: send_to_s3, send_from_s3, delete_from_s3, get_file_size and
--     get_s3_chunk_size. Delivery follows the bytes through an upload and a download.
--   * Edge/Server.antt: edge/server/stream_redirection.go. A round of the `select` in rcvAndRedirectChunks is an event;
--     Redirection relates what the cache is sent to what Edge/Cache/Writing.antt makes of it. Its children are the
--     handlers of edge/server/server_services.go: Requests (the metadata, the errors and the workload), Upload
--     (doUpload; Stored composes it with SendToS3, Undrained has it with a bounded channel that nobody reads),
--     OtherEdge (downloadFromOtherEdge), LocalCache (readFromLocalCache and the client as interleaved steps over one
--     buffer), Download (doDownload with the cache, the other edge nodes and S3) and Delete (doDelete, which calls
--     the cache, S3 and the neighbours). Handlers is Delete, Upload and Download with the workload counter and the call to
--     the balancer, Workload the counter around them. RoundTrip composes an upload and a download; Samples is data for tests.
--   * Edge/Utils.antt: edge/utils/utils.go. Config is the file of settings, Numbers the getters of whole numbers, Report
--     PrintCustomMap, Network the addresses, the random ids and the connection loop; Text is what the code uses of Go's
--     strings. LoadBalancer/Utils.antt and Registry/Utils.antt are load_balancer/utils/balancing_utils.go and
--     registry/utils/registry_utils.go, in which much has the same words.
--   * Edge/Channel.antt: the messages of edge/redirection_channel/redirection_channel.go.
--   * Entry.antt: ActAsPeer of edge/peer/peer.go with the registry's PeerEnter. Connected treats what the new peer finds.
--   * Base.antt: what the language and its library give: integers with wrap-around, maps, lists, outcomes.
--
-- A Go map is an association list: its order is the order of `range`, so a theorem on all lists is one on all orders.
-- A call of Go ends in an `Outcome`: a result, an error, a panic, or a wait for a mutex that its own goroutine
-- holds. Times are numbers of nanoseconds; `int` and `int64` are integers that wrap at 2^63 where the code computes.
-- A float64 is a numerator over a power of two, and each operation rounds it to 53 bits (Base/Float.antt); infinities and
-- subnormal numbers are not reached. An `int` of a number out of range is what amd64 makes of it.
--
-- The search for connected components runs on fuel, one more than the number of nodes: a call marks a node that no
-- earlier call has marked, so the depth of the recursion is bounded by the nodes.
-- The second loop of a lookup over its neighbours counts down the number of candidates, of which each round
-- takes one away. DownloadFromEdge runs on fuel, for which one more than the bytes of the file is enough. All other loops are by recursion on a list or on the number of rounds that are left.
--
-- Parameters stand for what is not in the repository: the random draws, whether a dial or a remote call succeeds,
-- what `GetNeighbours` replies, what Redis and the operating system answer, how the sort orders files, the Bloom
-- filters with their test and decoder, and how far the run time grows the capacity of a slice.
--
-- In the same way the AWS service answers what it answers: its downloader writes parts in order, its uploader reads
-- with rooms of any sizes. The coding of answers as JSON is a parameter with the law that decoding undoes encoding.
--
-- Not modelled: the rest of start-up (listeners and the registration of services), the session with S3, printing,
-- the parsing of floating-point settings, the generated gRPC code, the Python client and the scripts. Goroutines
-- that run at the same time are modelled as interleaved steps for GetEdge and for the reads of a cached file;
-- elsewhere a channel is the list of what goes over it, and has room for it (Upload/Undrained has a channel that can
-- be full). Printing is taken to return: PrintGraph of registry/services/registry_structs.go, which panics on an
-- address that is not IPv4, is left out with the rest of it.
pub mod Base
pub mod LoadBalancer
pub mod Registry
pub mod Edge
pub mod Entry
