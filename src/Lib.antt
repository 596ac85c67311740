-- ===== src/Lib.antt =====
-- A verification library for PurpleSky, a Personal Data Server whose Rust workspace stands under crates/.
--
-- The parts and the files that model them:
--   Prelude      shared helpers: Boolean tests, lists, an order as an interface, fallible results, a map
--                sorted by key (`BTreeMap`), and text functions on bytes (`str`)
--   Json, Url, Http  `serde_json::Value`, `url::Url` and what a request through `reqwest` meets, as data
--   Repo         crates/psky-repo. Repo/Error, Repo/Records and Repo/Repository: `Error`, `RecordSet` and
--                `Repository` of src/lib.rs there; Repo/Ipld: `json_to_ipld` of the same file; Repo/Syntax:
--                src/syntax.rs; Repo/Mst: src/mst.rs; Repo/Car: src/car.rs
--   Journal      `Journal` of crates/psky/src/journal.rs
--   Credentials  crates/psky-credentials/src/lib.rs. Credentials/Identity: `Identity::validate` and the
--                name checks; Credentials/Revision: `revision`; Credentials/Tokens: the tokens;
--                Credentials/Store: the account, bound and invalidated, and in Credentials/Store/Opening
--                its repository and `Store::open`;
--                Credentials/Sessions: passwords and sessions
--   Hypersnap    crates/psky-hypersnap/src/lib.rs. Hypersnap/Config: `PreflightConfig` and its endpoints;
--                Hypersnap/Parse and Hypersnap/Authority: the parsers of the answers and `from_info`;
--                Hypersnap/Request: `request`; Hypersnap/Node: `inspect_node`; Hypersnap/Run: `run`
--   Farcaster    crates/psky-farcaster-auth. Farcaster/Types: src/lib.rs there and the other files' types;
--                Farcaster/Message: src/message.rs; of src/client.rs, Farcaster/Urls: the checks of URLs
--                and channels, Farcaster/Words: call data and hexadecimal text, Farcaster/Transport:
--                `send`, `rpc` and `eth_call`, Farcaster/Client: the operations of `AuthClient`
--   Account      crates/psky/src/account.rs. Account/Types: its data; Account/Settings: `AccountSettings` of
--                crates/psky/src/settings.rs; Account/Failures: `Failure`; Account/Limits: `limit`;
--                Account/Authority: `client`, `authority`, `grant` and `ConfigurationGuard`;
--                Account/State: handlers as state passing; Account/SignIn: the start and
--                the polling of a sign-in; Account/Actions: `execute`
--   Tests        runs on concrete inputs, with concrete instances of the parameters
--
-- A record set is filled by `put`, whose values `json_to_ipld` converts. `Repository::build` writes the
-- set's tree of identifiers as blocks, adds the records and a signed commit, and `verify` checks such a
-- snapshot; `export` writes its blocks as an archive. The credential store binds one account, for which it
-- builds an empty repository, and keeps app passwords and the sessions that they open. The sign-in client
-- verifies the identity for which an account is bound, and rechecks it later: the account service does so
-- before it uses the credential store for a client, unless it did so a moment ago. The preflight asks nodes
-- about themselves and one account.
--
-- State and errors: an operation that changes state takes the state and returns the next one in a `Result`;
-- on an error the caller keeps the state that it had, as a failed `put` writes nothing and an uncommitted
-- transaction is rolled back. A handler of the account service keeps what it changed before it failed: it
-- gives the next state beside the result. It reads the clock once for an action, and again behind the
-- answers of the network, and its reply is the values that are written as JSON. A text is the list of its
-- bytes. The clock's reading and every random value are arguments. Each operation of the store runs in one
-- transaction on one connection, so operations follow each other. Sequence numbers and times are taken to
-- stay below the bounds of their types. An operation of the credential store reads the clock once.
--
-- Code of other crates is a parameter: the record `Library` in Repo/Library for identifiers, hashing,
-- base64, DAG-CBOR and signatures, and the record `Env` in Credentials/Types for URLs, HMAC and JSON of the
-- credentials, the record `Env` in Farcaster/Types for signed messages, dates, hashes, hexadecimal text and
-- the answers of the relay and of Optimism, the record `Env` in Account/Types, which joins these with
-- SHA-256, QR codes, the text of an origin and the JSON of the evidence, and the record `Web` in
-- Hypersnap/Request for the answers of the nodes. In one operation no request is sent twice, so that the
-- answers are a function of the requests; a body arrives in chunks and may break off. What theorems rely on
-- is a hypothesis of theirs: that distinct bytes have distinct identifiers, that values are encoded and
-- read back, that a key accepts its own signatures, that the tokens' base64 is decoded again and has no
-- dot. Tests/Sample and Tests/Environment have instances for which these hold.
--
-- Fuel: of the program only the loop of `varint` runs on fuel, one round for each unit of its number and
-- one more, which is enough since a round divides the number by 128.
--
-- Not modelled: file permissions and the creation of the database file, the HTTP server and its routes, the
-- settings but for the account's, the events that the account service keeps, and the website. Of
-- `Store::open` the schema is the record `Disk`. Of the two HTTP clients the construction and its timeouts
-- are left out; a deadline that passes is an answer that fails or a body that breaks off. The account
-- service gives up an action after 25 seconds, which is left out.
pub mod Prelude
pub mod Json
pub mod Url
pub mod Http
pub mod Journal
pub mod Repo
pub mod Credentials
pub mod Hypersnap
pub mod Farcaster
pub mod Account
pub mod Tests
