-- ===== src/Lib.antt =====
-- Society event management (app/): the services that run a housing society's events and the money
-- that goes with them.
--
-- A committee creates an event and moves it through its lifecycle (draft, active, locked, event day,
-- closed); flats book food passes, pay for them and may be refunded; the event spends money and
-- takes contributions; a ledger sums it up. Each service is a class of static methods on a
-- SQLAlchemy session. It validates its arguments, asks the workflow engine whether the event's state
-- allows the action or an officer overrides it, writes rows and an audit row, and commits.
--
-- The files, and the code they are about:
--   Prelude, Text       names shared by all, tables as lists of rows, sums over rows, signed integers,
--                       and the string functions strip, lower and membership
--   Db/Models           app/db/models.py, one record for each table
--   Db/Session          the session: what is committed, what the transaction sees, and how the
--                       database will answer the flushes and commits to come
--   Db/Errors           the exceptions, one constructor for each
--   Db/Query            the queries and filters that several services share
--   Db/Atomic, Db/Keeps, Db/Steps, Db/Ran
--                       rules for actions that commit nothing when they raise, and for actions that
--                       keep a predicate of the tables, inversions of a run that returned, and one
--                       call as a step between committed tables
--   Workflow/           app/workflows/rules.py (Rules), app/workflows/engine.py (Engine, Decisions),
--                       and the lines with which each service acts on a decision (Permit)
--   Security/           app/permissions/roles.py and guard.py (Roles),
--                       app/modules/security/access_control.py (Access, Guarantees)
--   Validation          app/utils/validation.py
--   Payments/           app/modules/payments/payment_service.py (Record; what it does: Recorded,
--                       Effects, Authority), app/modules/payments/refund_service.py (Refund; what it
--                       does: Refunded, Retries, Committed, Solvency), and what both keep true (Invariant)
--   Events/             app/modules/events/service.py (Service, Changes, Lifecycle, Consistency)
--   Passes/             app/modules/events/food_pass_service.py (Service, Written, Effects,
--                       Booked)
--   Expenses/           app/modules/expenses/expense_service.py
--   Contributions/      app/modules/contributions/ (Service, Refund, Effects, Codes)
--   Ledger/             app/modules/ledger/ledger_service.py (Service, Effects, Moves, Closing), and
--                       the abstract account that the services refine (Account)
--   Requests/           app/modules/payments/payment_request_service.py (creation: Create, Created;
--                       approval and rejection: Service, Effects; the loop that draws a code, which
--                       the requests for refunds share: Attempts)
--   RefundRequests/     app/modules/payments/refund_request_service.py (Service, Effects, Create,
--                       Created); the two methods that are word for word those of the payment
--                       requests, _authorize_requester_mapping and _get_event_society_id, are shared
--   Food/               app/modules/events/food_collection_service.py: the codes (Codes), what every
--                       operation asks first (Entry), the generation of tokens (Generate; what it
--                       makes: Plan, Generated), the counter (Counter), serving by a token (Serve) and
--                       by the flat (Lookup; its limit: Entitlement), the numbers shown to a member
--                       (Status); what a serving finds and writes (Serving), what every call leaves
--                       of a served token (Served), and histories of calls (History)
--   Announcements/      app/modules/announcements/service.py (Templates, Create), recipient_resolver.py
--                       and delivery_worker.py (Sending, Worker), on tables of their own (Models); the
--                       life of a delivery as an abstract machine (Machine), what a processing leaves
--                       (Processed), sequences of calls (Calls), what they make of a delivery (Fate), the
--                       runs of the worker (Batches), and what becomes of a rendered payload (Rendered)
--   Committee/          app/modules/committee/committee_member_service.py (Service): who may change the
--                       committee (Authority), and that a chairman is left (Steps, Changes, Chairman)
--   Finance/            the services that move money, called one after another, and what all that
--                       commit once have in common (Atomicity)
--   Fixtures, Runs, */Tests
--                       a small society, and runs of the services on it
--
-- How the code is read. A static method is a function from its keyword arguments to an action on a
-- session, which returns a value or an error and the session that it leaves; what was written
-- before an exception stays in the transaction. `db.query(...).first()` is the first row of a list
-- that meets the filter. An assignment to a row that was found, and the `add` of a new one, are
-- `save`. Identifiers are numbers; an argument that may be no UUID is `RawId`. Amounts are Python's
-- integers (`ℤ`). The sessions are opened with `autoflush=False`, so a query does not see the rows
-- that are added and not flushed; where that matters the model asks before it adds. Fresh row ids
-- and the time are arguments. The three methods that move an event to its next state differ in
-- their texts only, and are one function, `advance`, of a `Transition`.
--
-- Bounds. `process_refund` tries at most three times, as `_SERIALIZATION_RETRY_LIMIT` says, and
-- `request_payment` and `request_refund` draw a code at most eight times
-- (`MAX_REQUEST_CODE_GENERATION_ATTEMPTS`; the codes are an argument). A food token's code is drawn
-- at most 10,000 times (`max_attempts`; the codes drawn are an argument). The attempts are
-- structural recursion on that number, so every call ends. A delivery is tried while its attempts
-- are below `max_attempts`, a setting; a claim takes as many rows as its batch size. The database's
-- answers are a list of outcomes, of any length; after them every flush and commit succeeds.
--
-- Not modelled. Logging and metrics; the formatting of messages; the channels, handlers and HTTP
-- routes that call the services; reports, which only read; reminders, onboarding and channel
-- identities, which are services with tables of their own. Of the food services the JSON metadata
-- of audit rows, the callback that is told of new tokens, and the dashboard, which only reads, are
-- left out; a call takes place at one time, counted in seconds, and texts are put in upper case
-- letter by letter, as for ASCII. How `format_currency` writes an amount, and Python an identifier,
-- in the text of an audit row are parameters. What a call of the WhatsApp client raises,
-- and the commit after it, are parameters, as are the queue and the texts of exceptions: a call that
-- raises may have reached the provider, so nothing is said of what the provider takes. The worker's
-- other commits are taken to succeed, and the calls for one delivery not to overlap. Another session's transactions do not interleave with a call: between
-- its first query and its commit a call sees its own session only, and a conflict shows as a failed
-- flush or commit. A contribution's code is kept as its number.
pub mod Prelude
pub mod Text
pub mod Db
pub mod Workflow
pub mod Security
pub mod Validation
pub mod Fixtures
pub mod Runs
pub mod Payments
pub mod Events
pub mod Passes
pub mod Expenses
pub mod Announcements
pub mod Committee
pub mod Contributions
pub mod Ledger
pub mod Finance
pub mod Requests
pub mod RefundRequests
pub mod Food
