-- ===== src/Lib.antt =====
-- The check-in service: events, the registrations for them, the tokens at the door and the
-- check-ins themselves, over a relational database.
--
-- The parts, with the code that each file models:
--
-- - Base: results of fallible code (Outcome), tables as lists of rows with the queries that the
--   handlers make (Lists), order and pages (Sorting), and Boolean tests (Bools). Text: Python's str as
--   a list of code points, with the methods that the service calls, and int and str of numbers
--   (Numerals).
-- - Models (src/models/): a record for each table, and the unique constraints as tests of collision,
--   event_conflict to qr_conflict. Models/Store is the insert of a row, which fails where it collides;
--   Models/Sound is the invariant of the keys. The database `Db` is the committed state. One counter
--   serves the primary keys of all tables, since only their freshness matters.
-- - Auth (src/auth.py): the role sets (Roles), require_bearer_actor (Bearer), and the gates that the
--   handlers call (Gates: require_admin, assert_self_or_admin, assert_event_owner_or_admin and others).
-- - Registrations (src/routers/registrations.py): the gates before a registration (Gate, with
--   `register_gate` for the part of register_for_event before the replay and `visibility_gate` for the tiers),
--   the writes (Defs: register_for_event, with `enroll` for its part from the locking read on, and
--   cancel_registration), and list_registrations (Listing).
-- - Hashing (src/services/hashing.py): hash_pii, sha256_full, hmac_sign, hmac_verify, sanitize_text.
-- - Qr (src/services/qr_token_service.py, src/routers/qr_tokens.py): the format and the checks of a
--   token (Token: `token_check` is verify_token up to its query), and the service (Service: mint_token,
--   peek_token, verify_token, consume_token, mint_qr_token, list_qr_tokens).
-- - Geo (src/services/geofence_service.py, src/services/geo_verification.py): the fence (Distance) and
--   the signals of velocity, country and attestation (Signals).
-- - Checkins (src/routers/checkins.py): the rate limiter (Limiter) and submit_checkin (Submit), whose
--   early returns are the stops of a `Flow` (Submit/Steps).
-- - Invitations (src/routers/event_invitations.py): send_invitations, whose loop is `send_all` with
--   one `invite_one` for each invitee, the two lists, and respond_to_invitation.
-- - Events (src/routers/events.py, src/schemas/event.py): create_event, with `create_gate` for its
--   checks and `insert_event` for its insert, get_event and delete_event; list_events and
--   discover_events with their filters, order and pages (Lists, over Base/Sorting); the validators of
--   the bodies (Schema: `validate_create` is EventCreate, and `validate_update` of Update is
--   EventUpdate, where a `Field` is absent, null or a value); and update_event (Update: `merge` is the
--   row with the fields of the patch, `flush_row` the commit).
-- - Bodies (src/schemas/): the validators of the other bodies, validate_registration, validate_checkin,
--   validate_send and validate_mint.
-- - Groups (src/routers/eligible_groups.py): list_eligible_groups.
-- - Retention (src/jobs/geofence_retention.py): purge_old_geofence_hashes.
-- - Env (src/services/geo_verification.py): os.getenv and the helpers that read a flag or a number.
-- - Csrf (src/main.py): the dispatch of CSRFMiddleware.
-- - Database (src/database.py): the address of the database and the options of its connections.
-- - System: `Run` is a sequence of requests of any callers, each with the requests that commit inside
--   it, of runs of the retention job and of writes to the mirrored tables of groups; `run` is the
--   database that it leaves. System/Lives is the state machine of a registration's status that the runs
--   are compared with; System/Errors has the routes that write as one function `serve`.
-- - Tests: each result at a concrete input.
--
-- A handler is a function from the caller, the request, the time and the database to its result and
-- the database that it leaves. Where other requests can commit between the first reads of a handler
-- and its insert, the handler takes them as an argument `race`, any function of the database. The service
-- sets no isolation level, so its transactions are those of MySQL's default, REPEATABLE READ: after the
-- first SELECT, plain queries read the snapshot, and only inserts, unique keys and locking reads meet
-- what was committed since. `enroll` takes the snapshot as `seen` beside the committed database, and a batch
-- of invitations runs on a `Session` of both; after a rollback a handler reads a new snapshot. Times
-- are whole seconds, and nanoseconds in the rate limiter; a `Moment` is a time of a body, with its
-- offset where it has one, and a column holds it without. `run` interleaves requests only where
-- a handler takes a `race`. A column that stores a flag as 0 or 1 is a
-- Bool. Recursion is structural; only the printing of a number takes fuel, one more than the number,
-- which has fewer digits.
--
-- Parameters are the code outside the repository: SHA-256 and HMAC (`Crypto`), the keys and the
-- environment (`Keys`, `Knobs`, `AuthConfig`, the last with the answers of the authentication
-- service), floating point (`FloatOps`), and the nonce of a token. The theorems on tokens
-- assume that digests are ASCII and hold no colon (`IsHex`), since they are hexadecimal, and that the nonce
-- holds no colon.
-- Of `str.lower` the ASCII letters are modelled, which are the ones that the role names have.
--
-- Not modelled: the order of the groups of the picker, and of rows of one time in a list; the schemas of the
-- responses but those of the discovery and of the list of registrations; comparisons of texts by a
-- collation of MySQL; a PATCH, a deletion, a cancellation, a mint or an answer
-- that interleaves with other requests; headers and
-- log lines; the wiring of the
-- routers and the engine and sessions of SQLAlchemy.
pub mod Base
pub mod Text
pub mod Models
pub mod Env
pub mod Csrf
pub mod Bodies
pub mod Database
pub mod Retention
pub mod Auth
pub mod Registrations
pub mod Checkins
pub mod Hashing
pub mod Qr
pub mod Geo
pub mod Invitations
pub mod Events
pub mod Groups
pub mod System
pub mod Tests
