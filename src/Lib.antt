-- ===== src/Lib.antt =====
--
-- A model of d7024e-lab, a Kademlia node with a package registry on top of its distributed hash
-- table, in the order in which the parts rest on each other. Paths are from the repository's
-- root.
--
-- The package kademlia (Kademlia.antt): kademlia/kademliaid.go is Kademlia/Id.antt,
-- kademlia/contact.go is Kademlia/Contact.antt, kademlia/bucket.go is Kademlia/Bucket.antt, and
-- kademlia/routingtable.go is Kademlia/RoutingTable.antt, but for UpdateWithPing, which is
-- Kademlia/Eviction.antt. A Go function keeps its name in snake case, a method stands in the
-- module of its type. kademlia/shortlist.go is Kademlia/Shortlist.antt. LookupContactByID of
-- kademlia/kademlia.go is Kademlia/Lookup.antt: what a contact answers in a round, and the order
-- in which the results arrive, are parameters. LookupDataByID, LookupData and
-- LookupLatestPointer are Kademlia/DataLookup.antt, which joins the lookup with the store of the
-- node; a result there is none for a panic and for fuel that ran out alike, and for a validation
-- that comes to look up a record at the node itself. Join and the random identifiers of its
-- bucket refresh are Kademlia/Join.antt, and Store, StoreWithKey, StoreLatestPointer, their
-- forced variants and Replicate are Kademlia/Publish.antt, where the store messages are put on
-- record in the order of the contacts. The replication worker is Kademlia/Worker.antt, a
-- relation of steps between its calls and its goroutines. kademlia/network.go is
-- Kademlia/Messages.antt: a packet is handled in one step, in which the sender is recorded up to
-- the eviction probe that UpdateWithPing starts, and a request is opened, answered and closed in
-- steps of their own. kademlia/simulated_network.go is Kademlia/SimulatedNetwork.antt: the
-- networks are objects of a heap, which the hub finds by their address, and its counters wrap at
-- 64 bits; the floating-point numbers of the packet loss are a parameter. kademlia/datastore.go
-- is Kademlia/DataStore.antt for a call that is alone, and Kademlia/DataStore/Writers.antt for
-- calls that interleave.
--
-- The package registry (Registry.antt): its errors are Registry/Outcome.antt,
-- registry/version.go is Registry/Version.antt, the names of registry/record.go,
-- registry/keymanager.go and registry/dns.go are Registry/Domain.antt, registry/crypto.go is
-- Registry/Crypto.antt, registry/record.go is Registry/Record.antt, registry/dns.go is
-- Registry/Dns.antt, registry/keymanager.go and the key pairs of registry/crypto.go are
-- Registry/KeyManager.antt, where a file is known by its name in the one directory of the
-- manager, and registry/validator.go is Registry/Validator.antt, but for WalkVersionChain, which
-- is Registry/Walk.antt.
--
-- The package cmd/node (Node.antt): cmd/node/dns.go is Node/Resolver.antt. Of cmd/node/cli.go
-- the splitting of lines and the choice of the command are Node/Commands.antt, and HandlePublish
-- up to the first value that it stores is Node/Publication.antt; the helpers of cmd/node/main.go
-- that find contacts are Node/Contacts.antt.
--
-- Prelude.antt has what these share: Boolean tests on the native numbers, lists, bits, and in
-- Prelude/Bytes.antt byte strings, hex, the functions of the package strings and maps as
-- association lists. Tests.antt has runs of the code and the properties at concrete inputs.
--
-- A pointer that may be nil is an Option. A function that may panic returns an Option too, and
-- none is the panic (Panics). An error is a value of Registry.Outcome.Error, which keeps the
-- sentinel that an error wraps and drops its text. Strings are their bytes, and the functions of
-- the package strings are those on ASCII: Unicode letters and spaces are outside the model.
-- Copies of byte slices do not show, since values are immutable here.
--
-- Loops are structural. Four run on fuel: the rounds of a lookup, with one more than the nodes
-- that can be asked, the two walks along a chain of records, with two rounds more than the
-- records that may be visited, and the loop of Store for a call alone, with two rounds; which is
-- proved to be enough each time. Locks: what a thread does while it holds a lock is one
-- function, and the relations Step of the eviction probes and of the replication worker and
-- Write of the store let any thread go next. The answers that a validation reads from the store
-- and from the network while others write are an arbitrary function, which is more than the code
-- can see.
--
-- Parameters: SHA-256 and Ed25519 (Registry.Crypto.Crypto), encoding/json (Registry.Record.Json
-- and Registry.KeyManager.KeyJson), the failures of the file system
-- (Registry.KeyManager.FileSystem), floating-point numbers (Kademlia.SimulatedNetwork.Floats),
-- what the network answers, resolvers, fetchers, random numbers and times are arguments;
-- HasSizes and HasKeySizes state the sizes that the library documents.
--
-- The store of a node calls its fetcher while it validates a latest pointer. A fetcher that the
-- store was given is a function, a parameter. NewKademlia gives a store that has none LookupData
-- of the same node, which changes the routing table and the store, and may call the validation
-- again without end. The data lookups, StoreWithKey and SendStoreMessage tell the two apart
-- (Kademlia/DataStore/Wired.antt) and do not follow the second: where a record of the chain is
-- not in the store, their result is none. Kademlia/DataStore.antt and the STORE handler of
-- Kademlia/Messages.antt are those of a store whose fetcher is a function.
--
-- Not modelled: WalkVersionChain of kademlia/kademlia.go and the handlers of the command line,
-- but for the first half of HandlePublish; the start of the process in cmd/node/main.go and the
-- experiment driver are I/O. Log calls are left out.
pub mod Prelude
pub mod Kademlia
pub mod Registry
pub mod Node
pub mod Tests
