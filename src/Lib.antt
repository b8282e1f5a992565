-- ===== src/Lib.antt =====
-- DrFed, a platform for the development of ActivityPub applications: the parts that decide what is
-- stored of a document and of a delivery, whether a database may be opened, and what is handled
-- next.
--
-- Revision models packages/models/src/resource-revision.ts with the tables of
-- packages/models/src/schema.ts that it uses and the trigger of
-- packages/models/drizzle/20261026181206_guard_resource_revisions/migration.sql. Each canonical
-- resource has a history of revisions and a head that names the newest one. `append_prepared` is
-- appendPrepared, `lock_revision_target` is lockRevisionTarget, and the loads and pages of a
-- history keep their names. Revision/Rows.antt has the rows, Revision/Shape.antt says what a
-- well-formed history is, Revision/Lock.antt what an append has passed, Revision/Effect.antt what
-- it changes, and the other files prove from these.
--
-- Delivery models packages/models/src/activity-delivery.ts: the rows that an inbound or an outbound
-- delivery leaves, the link of an inbound one to the stored activity, the evidence of what it
-- carried, which names revisions, and the settlement of an outbound one. Delivery/Actors.antt,
-- Record.antt, Carried.antt and Settle.antt hold the functions and Events.antt the store that they
-- share as one state machine, among transactions that change the other tables: a reference to a row
-- that is gone is set to null. Valid.antt, Checked.antt and Lasting.antt state the invariants of
-- this machine, Kept.antt what one function changes, Evident.antt what a receipt is evidence of,
-- and Rows.antt has the lemmas on rows by their id. An instance, which no code removes, stays.
--
-- Migration models packages/models/src/migration-manifest.ts and migration-state.ts: the list of
-- the migrations that a build knows, and the classification of the history that a database records
-- against it. Migration/Session.antt models migration-session.ts, the session that prepares a
-- database under an advisory lock, as runs over the answers of the database and the timers.
-- TaskQueue models packages/federation/src/task-queue.ts, the queue of background tasks, as a state
-- machine over the awaits of its listener.
--
-- Outbox models packages/federation/src/activity-delivery/queue.ts, outbound.ts and addressing.ts:
-- the settlement of an attempt of a queued message (`handle_outbox` is handle for an outbox
-- message), the delivery of an activity to each inbox (`deliver_activity`), and whom it reaches.
-- Inbound models verification.ts and inbound.ts of that directory, the summary of a verification
-- and the entry of an inbox request, and Inbound/Race.antt a request and a queue worker that record
-- one delivery together, each a sequence of single operations on the database or the key–value
-- store. Outbox and Inbound change the store by the functions of Delivery. What the federation
-- library reports of a request, of spans and of responses is data of the model.
--
-- Registry models packages/models/src/resource.ts: `ensure_resource` and `promote_resource` find or
-- register an IRI and make it a resource of a kind, and Registry/Occurrences.antt stores whom a
-- resource is addressed to. What other transactions commit between the statements is an argument.
--
-- Collections models packages/federation/src/collection.ts: the pages of an outbox and the cursors
-- between them. What the database and two libraries make of the texts in a cursor is a parameter.
--
-- Classification models packages/graphql/src/classification.ts: how two other servers are expected
-- to classify an object by whom it, or its activity, is addressed to. A reason is the rule that it
-- quotes.
--
-- Slug models packages/models/src/slug.ts, the names that an instance's host may begin with.
--
-- Common holds the names that all files share: Boolean tests, lists over native numbers, results,
-- texts, JSON values and sorting.
--
-- A table is a list of rows, a transaction is a function into a result, and an error drops the
-- changed store as a rollback does. Row locks make the transactions on one resource or delivery
-- follow one another, and each is one call. A key or check of a table refuses an insertion, and for
-- the rows that an update changes it is proved or, at a settlement, refused as well. New
-- identifiers and the clock are arguments. A document of a revision is its JSON text, and one of a
-- delivery a JSON value whose deep comparison by Node.js is a parameter. Loops are recursion on
-- lists; a reader of pages has as many pages as hold the rows.
--
-- Not modelled: the preparation of a revision from its input and the typed rows written beside it,
-- the reading of files and catalogs, the tags that the queues of the federation library carry, the
-- texts that explain a verification, the GraphQL schema and the web interface, the command line
-- with its configuration and mail, the handlers registered with the federation library, and
-- generated SQL.
pub mod Common
pub mod TaskQueue
pub mod Migration
pub mod Revision
pub mod Delivery
pub mod Classification
pub mod Slug
pub mod Outbox
pub mod Collections
pub mod Registry
pub mod Inbound
