-- ===== src/Lib.antt =====
-- The auth service of an identity platform: users and their sessions, roles and tenants, API keys and
-- OpenID Connect, over Postgres, an optional Redis and a NATS stream.
--
-- The program. `src/grpc.rs` has the handlers of the gRPC service; each reads the metadata that the
-- gateway sets, calls the methods of `src/repo.rs` (SQL) and `src/cache.rs` (Redis), and answers with a
-- message or a status. Events are written to an outbox table within the transaction that they are
-- about, and `src/relay.rs` publishes them. `src/saga.rs` listens for failed profiles, `src/keys.rs`
-- loads the signing keys, `src/totp.rs` and `src/totpsecret.rs` deal with the second factor's secrets,
-- and `src/main.rs` starts all of it.
--
-- The model. An operation is an action: a function of what surrounds the service (`Env`) and of its
-- state (`World`) into a result or an error and the next state.
--   World/State    the state (`AuthSvc`, the rows, Redis, the stream) and the parameters
--   World/Monad    actions, do blocks, one SQL statement, transactions with rollback
--   Db             the rows of the tables (src/repo.rs; migrations/)
--   Repo/*         one action for each method of `Repo`, and the queries that handlers make themselves
--   Cache/Defs     the methods of `Cache`
--   Service/*      one action for each handler, by the name of the handler; the handlers of API keys are
--                  `create_key`, `list_keys`, `revoke_key` and `validate_key`, and the handler
--                  `disable_totp` is `disable_second_factor`
--   Relay/Defs     `drain`; Relay/Stream which message of the stream carries an event of the outbox
--   Cache/Glob     the patterns of SCAN, as Redis documents them
--   Saga/Defs      `consume`; Keys/Defs `load_jwt_manager`; Boot/Defs the functions
--                  of src/main.rs; Totp and TotpSecret/Defs the files of these names
--   Server         the requests of the service, what one does, and a step of the server: a request, a
--                  pass of the relay or a stream of the saga; a run is any number of steps
--   Base           what the modules share: tests, rows as lists, text, integers, and their lemmas
-- The theorems on single handlers stand in Refresh, SignIn, Access, Codes, Tenancy, Recovery and
-- Accounts, and beside the definitions in Relay, Cache, Keys, Boot and TotpSecret; their examples at a
-- sample database in Examples, over the data of Samples.
--
-- The server over many steps. World/Footprint says what it is for an action to respect an order on
-- databases. History/Writes is the interface between the orders and the handlers: the statements that
-- an order has to respect. History/Handlers and History/Requests prove for any order that fills it that
-- every request, the relay and the saga respect the order. Two orders fill it:
--   History/Ledger the ledger of tokens, codes, the audit trail and the denylist may only move forward
--                  (History/Sessions, Codes, Trail, Idle and Instance; used in Run and Forever)
--   Users/Sound    the indexes and columns of the users (Users/Updates, Elsewhere, Activation and
--                  Instance; used in Users/Run)
-- The statements that concern neither are in History/Elsewhere.
--
-- Choices. A UUID is a number, and an instant is a number of microseconds; the clock stands still
-- within a request, and each request has surroundings of its own. Columns of type INT and the limits
-- of pages are bounded as in the code; an instant has no last value, where a time to live that
-- overflows makes the source panic. A table is a list of rows; constraints, defaults and
-- cascades that a method relies on are part of the method. The exception is the outbox: its insert
-- does not check the primary key, a UUID drawn for the row, and its payload stays the text that was
-- bound, without the normal form of `jsonb`. Where Postgres is free to run a subquery whose value no
-- row needs, a parameter (`runs_unneeded`) says whether it does.
-- Any statement and any command of Redis may fail, by a schedule that is a parameter. A run
-- interleaves whole requests; Codes/Race interleaves the statements of several exchanges, which the
-- code is written for. Loops are structural recursion over the list that they run through; the loop of
-- the relay is a number of passes; the scan of Redis runs on fuel, a parameter, since the program
-- leaves the number of rounds to Redis, and Cache/Invalidation says which fuel is enough; the
-- connection is tried fifteen times, as in the code.
--
-- Not modelled: the crates `common` and `proto`, tonic, sqlx, redis, NATS and the cryptography, which
-- are parameters; tracing; `main`'s configuration and wiring; when the timer of the relay ticks; the
-- subscription of the saga; the migrations' SQL, the build files and the tests. Row-level security does
-- not bind the service, which owns the tables; the methods that assume a restricted role see what it sees.
pub mod Base
pub mod TotpSecret
pub mod Db
pub mod World
pub mod Totp
pub mod Cache
pub mod Repo
pub mod Service
pub mod Relay
pub mod Saga
pub mod Keys
pub mod Boot
pub mod Refresh
pub mod SignIn
pub mod Access
pub mod Codes
pub mod Tenancy
pub mod Recovery
pub mod Accounts
mod Samples
mod Examples
pub mod Server
pub mod Users
pub mod History
