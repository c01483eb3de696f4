-- ===== src/Lib.antt =====
-- The parts of BeatVault that decide what stands on a DJ's drive and which work is done, modelled
-- as functions and proved about. BeatVault ingests audio, analyses it through a queue of jobs, and
-- writes the database and the analysis files that a CDJ player reads.
--
-- How the parts meet: the gateway (Gateway) knows its users and their tracks and playlists from the
-- catalog (Catalog), names a content by its identity (Hash) and submits a job under it (Jobs), where
-- the artifact store (Store) has no complete bundle of it; the worker claims jobs, analyses, describes
-- a track (Track) and puts its bundle into the store; the export (Export) writes each track's analysis
-- files (Anlz) and a database (Pdb) whose strings are device strings (DeviceString, over the encodings
-- of Text) and whose rows stand on pages (Page); the transfer (Transfer) brings them to the drive, and
-- a validator (Validate) and a comparison (Diff) read them.
--
-- Which file models what, by the paths of the repository:
--   Page, with children: crates/bvault-core/src/page.rs. A PageBuilder is a record, a page the list
--     of its 4096 bytes; write_row returns PageResult, with the error PageOverflow. The loops of
--     write_row_index are recursions on the number of steps left. Capacity holds the invariant,
--     RowIndex, ReadBack and Counts what a reader finds on a finished page.
--     Index and FileHeader are the other two builders of that file.
--   Validate, with children: crates/bvault-core/src/validate.rs, which reads such files.
--   Jobs, with children: crates/bvault-jobs/src/queue.rs and model.rs, and the table and index of
--     services/gateway/migrations/0001_jobs.sql. Each statement is a function on the table at a
--     time `now`, and History runs any sequence of them. The rows that other transactions hold
--     are a parameter of a claim, for `for update skip locked`. Transactions are atomic steps.
--   Store, with children: crates/bvault-store/src/artifact.rs, and Store/Raw raw.rs beside it. The disk
--     is what a reader sees and what an fsync has made last; a run is cut off after a number of calls
--     of the file system. Creating directories and locating a canonical path leave no trace in it.
--   Catalog, with children: crates/bvault-meta/src/queries.rs and model.rs over the tables of
--     services/gateway/migrations. Each query is a function on the tables at a time `now`, and History
--     runs any sequence of them; each is one transaction, also remove_playlist_tracks, whose look at
--     the playlist and whose delete are two statements. Ids that the database makes up, `lower`
--     and `ilike` are arguments.
--   Gateway, with children: services/gateway/src/routes.rs, on a state of a catalog, a queue and
--     an artifact store. Passwords, token fingerprints, JSON and UUIDs are the record External, of
--     which nothing is assumed; random tokens and ids are arguments. Upload takes a request as its parts,
--     with how each call of the file system ends, how much of a file that is not flushed has not
--     arrived, and whether the database takes the job; FileName reads the paths that clients give.
--   DeviceString: crates/bvault-core/src/string.rs. Text: `str` as a list of characters, with
--     UTF-8 and UTF-16 as Rust's standard library has them; Characters turns it into a native string.
--   Hash: crates/bvault-hash/src/lib.rs. The function xxh3_64 is a parameter, of which nothing is
--     assumed.
--   Track, with children: crates/bvault-core/src/track.rs.
--   Pdb, with children: crates/bvault-core/src/pdb.rs. The builder is a record whose maps from
--     names to ids are association lists with a counter (Entities). Rows and FixedRows have the
--     rows' bytes, Paging the loop that spreads rows over pages, Tables the pages of each table,
--     and Build the assembly of the file. The conversions of `f64` are parameters; a panic of
--     `add_track` on an unknown key is `none`. Growth, Additions and References are about the maps
--     as tracks are added. A hash map's order does not matter, since the rows are sorted by id.
--   Anlz, with children: crates/bvault-core/src/anlz.rs. The operations on `f64` are the record
--     Floats, of which only the range of `as u32` is assumed. Tags is the reader that steps through
--     a file.
--   Export: crates/bvault-export/src/build.rs, up to the database's builder. The stored analyses
--     and the extension of a path are parameters.
--   Transfer, with children: crates/bvault-transfer/src/reconcile.rs, the filesystem backend of
--     sink.rs beside it, and the types of crates/bvault-manifest/src/lib.rs. The drive is a map
--     from paths to bytes (Files); what the server, the network and the disk answer comes with
--     each entry of the manifest. Removing a temporary file succeeds.
--   Diff, with children: crates/bvault-core/src/diff.rs. The report's text is left out.
--   Xml, with children: crates/bvault-core/src/xml.rs, the escaping of texts and of paths. Escaping
--     and Uri have the readers that undo it.
--   Prelude: numbers, lists, buffers, words and bits, shared by all.
--
-- Numbers are native naturals; where the code has a fixed width its wrap-around is written out. A
-- list of bytes does not state that they are below 256. Fuel occurs in the readers: walk_tags has a
-- step for each tag, and is proved to reach the end with as many steps as there are tags; the walk
-- along a table's pages has one step more than the file has pages, and is proved to end within them.
-- The comparison of two pages has a turn for each byte, and two for each byte within a run, of which
-- each second turn at least moves the place on.
--
-- Not modelled: signal processing on floating point numbers, audio decoding, the loop of the worker,
-- the SQLite library, the cryptography of passwords and tokens, telemetry, the terminal interface,
-- and the Python download service, which are calls of other libraries for the most part; of the
-- gateway the import from Google Drive, which talks to another service, the search, the cookies and
-- the handlers that pass one query on; of the stores the canonical paths and the listings; nor the
-- staged files of an export, the document that the collection's texts are put into, and the Android
-- backend of the transfer.
pub mod Anlz
pub mod Catalog
pub mod DeviceString
pub mod Diff
pub mod Export
pub mod Gateway
pub mod Hash
pub mod Jobs
pub mod Page
pub mod Pdb
pub mod Prelude
pub mod Store
pub mod Text
pub mod Track
pub mod Transfer
pub mod Validate
pub mod Xml
