-- ===== src/Lib.antt =====
-- AethelDB separates PostgreSQL's storage from its compute. A compute node streams its write-ahead
-- log to a group of safekeepers (safekeeper/), which make it durable on a quorum; a page server
-- (pageserver/) reads the committed log, keeps the versions of every page, and reconstructs a page as
-- of any log sequence number, on any branch of a tenant. common/ holds the types and protocols that
-- they share. This library models these three crates.
--
-- Common: the crate common/src. Lsn is lsn.rs, Page is page.rs (the identity and order of pages), Ids
-- is ids.rs, WalService is wal_service.rs: one encoder and one decoder for each message, named after
-- it (`AppendRequest::decode` is decode_append). Bytes holds the big-endian fields that all codecs
-- use; a slice out of range is the outcome panic of Result. PageService is page_service.rs in the same
-- form.
--
-- Pageserver: the crate pageserver/src. Page and Codec are page.rs (application of a version; the
-- wire form), Redo is walredo.rs (the trait, and the native backend that implements it), Layer is
-- layer.rs, Repository is repository.rs with Compact for its method `compact`, Timeline is
-- timeline.rs, Tenant is tenant.rs. The modules beneath them hold the proofs and are named for what
-- they prove. A mutex makes each method one step on the state, which is passed along. The redo backend
-- is a parameter; where a theorem needs more of it, the contract that its documentation states is
-- the hypothesis IsRedo, which the native backend fulfils. A timeline's reference to its parent is an
-- identifier in the list of the tenant's timelines, newest first, so that a parent stands behind its
-- branches and a read follows the chain by structural recursion, without fuel.
--
-- The log enters the page server in WalDecode, which is waldecode.rs: Stream frames the bytes into
-- records, Record decodes one record, Restore gives back the pages that it carries, with the
-- decompressors of LZ4 and Zstandard as parameters. Pump is the loop that ingests every record that a
-- decoder has, Repository/Wal is its use for a whole buffer, WalReceiver (walreceiver.rs) its use for
-- the chunks that a safekeeper sends. The fuel of these loops is the length of their input, or twice
-- that for the loop that skips page headers; every round takes a byte, or a header that is followed by
-- one.
--
-- Service is server.rs: the connection that answers the requests in a client's bytes, and in
-- Service/Ingest what the ingest endpoint does with the bytes of modifications. The tenants are a map.
-- Service/Messages has the texts of the error messages. The loops over a connection run on fuel, which
-- is the number of the bytes: every round takes some, and the last finds none. How a client decodes
-- UTF-8 is a parameter.
--
-- Safekeeper: the crate safekeeper/src. Consensus is consensus.rs: the quorum rule and elections.
-- Storage is storage.rs: the log in segment files, with its newest bytes in memory. The directory is a
-- parameter of the state, a file for each segment index, once as the process sees it and once as
-- fsync has made it durable. The loops over the bytes of an append and of a read run on fuel, which is
-- the number of bytes: each round takes one at least, so it is enough.
-- Server is the handlers of server.rs, which put the two together; what the peers acknowledge is a
-- parameter, and each handler is one step. Group is a group of safekeepers that elect a leader, as a
-- step relation: the calls of Consensus on every node, and the vote requests and votes on their way.
-- Nodes do not restart in it.
--
-- Ord and Ord/Map are the ordered maps (`BTreeMap`) of the source, as sorted association lists;
-- Prelude and Result hold what all parts share. Hash maps and sets whose order is never read are
-- lists too.
--
-- Arithmetic is that of the release profile, which wraps: hole lengths at 16 bits, block counts at
-- 32, LSNs, terms and layer ids at 64. Lengths that are cast to a width keep the cut. Other loops are
-- structural recursion on the list or the count that they run through.
--
-- Not modelled: network connections, the HTTP interfaces, object storage, the catalog on disk, the
-- redo process, the proxy, the command line tool, the compute extension, metrics and logging.
pub mod Prelude
pub mod Result
pub mod Ord
pub mod Common
pub mod Safekeeper
pub mod Pageserver
