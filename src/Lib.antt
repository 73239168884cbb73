-- ===== src/Lib.antt =====
-- The marketplace: the core of internal/identity, which signs people in and keeps their sessions,
-- passwords and second factors, and the parts of the platform around it: rate limits, the audit
-- trail, the outbox, jobs, languages, tenancy and the tokens of a page. They are functions on the tables
-- that each part reads and writes, with the theorems that make them correct.
--
-- The parts of internal/identity and their files:
--   Base         shared names, Boolean tests, lists, results, and a table as a list of rows with
--                SELECT, UPDATE, DELETE and INSERT (Base/Table).
--   Crypto       the primitives that the package calls, as a parameter, and decimal text.
--   Service      the other parameters: sealing, WebAuthn, argon2id, NFKC, the breach check, the
--                address parser.
--   Policy       internal/identity/factorpolicy.go, and ParseAction of stepup.go.
--   Totp         totp.go. Recovery: recovery.go. Credentials: policy.go, CheckLabel of factors.go and
--                checkNew of identity.go.
--   Store        the rows of the tables; Tx: a transaction, the audit's and the outbox's entries
--                (identity.go, notify.go); Tx/Scope is about within,
--                After and Flows about what holds after a transaction and a flow.
--   AccountStore, FactorStore, ChallengeStore
--                store.go, factorstore.go and challengestore.go, one function for each statement.
--   Failures     failures.go. EmailCode: emailcode.go.
--   Challenge    challenge.go up to checkApp, and checkKey of key.go. Answering: the rest of
--                challenge.go, stepup.go and SendChallengeCode.
--   Sessions     SignIn, SignOut, Supersede and Authenticate of identity.go.
--   Accounts     SignUp, Verify, Resend and ChangePassword of identity.go, CreateStaff of staff.go.
--   Enrolling    factors.go, and BeginEmail and ConfirmEmail of emailcode.go.
--
-- The other parts:
--   RateLimit    internal/platform/ratelimit/database.go, with Subjects and Rows on its table and
--                History on the attempts that were made.
--   Audit        internal/platform/audit/audit.go. Audit/Keys: keys.go, seal.go, and Seal and Open of
--                internal/platform/keys/keys.go. Audit/Log: Append of log.go, and open.go.
--                Audit/Verify: Verify of log.go, with the functions of migrations/00008_audit_log.sql
--                that it reads through. Digest, Tampering, Sorted, Whole, Appending, Written and
--                Erasure hold the proofs.
--   Outbox       internal/platform/outbox/consumer.go; Once is about delivering again.
--                Outbox/Dispatching: dispatcher.go and outbox.go, with the functions of
--                migrations/00006_outbox_and_jobs.sql and 00010 that it calls; Overlapping is
--                about dispatchers that overlap.
--   Jobs         internal/platform/jobs/jobs.go. Jobs/Runs: the runs of all instances, as a step
--                relation; Exclusion and Leases are about them.
--   I18n         internal/platform/i18n/resolve.go; Choosing and Following are about its redirects.
--   Tenancy      internal/tenancy/tenancy.go and middleware.go. Tenancy/Fresh and Refinement
--                compare the held host map with one that is always read. Tenancy/Seed: seed.go, and
--                Declared about it.
--   Csrf         internal/platform/httpx/csrf.go; Tokens is about whose tokens are accepted.
--   Mail         internal/platform/mail/mailer.go, store.go and mail.go; Templates: templates.go.
--                Mail/Sending is about what is written down, Mail/Suppressed about an address that is
--                written to no more.
--   Staff        internal/staff; Staff/Claims is about the transaction of a first run, Staff/FirstRun
--                about first runs that race.
--   Tasks        internal/platform/httpx/internaltasks.go; Answered is about its statuses.
--   Config       internal/platform/config/config.go; Loading is Load, Valid and Accepted are about what
--                it gives, Complaints about what it says.
--   Webhook      internal/platform/httpx/mailwebhook.go; Reported is about a report from the call to
--                the suppression of its address.
--   Hasher       internal/identity/password.go, an instance of Service's verify and hash_password;
--                Roundtrip is about it.
--   KeyEnrolling the rest of internal/identity/key.go; Unique is about the keys it adds.
--   Pipeline     internal/platform/httpx/httpx.go, security.go and pages.go, and
--                internal/platform/ratelimit/middleware.go; Guarded is about the requests it stops.
--   Origin       internal/platform/httpx/origin.go; Spoofing is about it. Text: strings.Split.
--   Tests        the theorems at concrete inputs.
--
-- How the parts stand together: the flows of internal/identity write audit and outbox entries with
-- their other rows (Tx). The outbox hands such an event to its consumers, and the audit log appends
-- such an entry to a chain; the parts are modelled each over its own tables. The mailer is a consumer of
-- the outbox (register_mail), the callbacks deliver its events and run the jobs (Tasks), and the first
-- run is a transaction of CreateStaff (Staff). The rest are middleware in front of the flows.
--
-- How the model stands to the code: a function keeps its name, in lower case with an
-- underscore before each later word; a query's WHERE is a Boolean test on a row and its SET
-- a function on it. A flow of internal/identity is a function of the world, which holds every scope's
-- tables and the time of the last sweep; a transaction is a function of the tables of its scope that
-- returns its result and the new tables, or an error, and within commits the tables or keeps the old
-- ones. An appending to the audit log is such a transaction on its tables (Step). What the code
-- draws at random, a token, a salt, a key, a nonce or a code's number, is an argument; so is each
-- reading of the clock, in nanoseconds (the audit's, in microseconds).
--
-- What the model assumes: a transaction runs alone, so the row locks have nothing to do (the runs
-- of the jobs are interleaved, Jobs/Runs, and so are first runs, Staff/FirstRun, and the statements
-- of the dispatchers, Outbox/Overlapping); a statement
-- on the database succeeds, but where a module says otherwise, so an error is one that the code itself
-- returns; row-level security shows
-- a transaction its scope's rows alone; an identifier is a number, 0 for none, and a table's new
-- identifier is one more than the last, but in the audit and the outbox it is its text. The uniqueness
-- of a token's hash is not assumed where a theorem does not say so. Numbers are unbounded, as no count
-- or moment comes near a word's bound; the code of a step keeps its 31 bits, and a number that the
-- audit hashes its 64.
--
-- Loops are structural recursion on a list or on the number of steps in the drift's window, but for
-- two. Verifying a chain reads batches on fuel, a round more than the chain has records, since a batch
-- that is not empty passes a record at least; Audit/Sorted shows that it is enough. A visitor's
-- redirects are followed on fuel, which is not the code's own: two are enough.
--
-- Not modelled: the pages and handlers, the log and the commands; the limiter in memory, whose
-- tokens are rounded floating-point numbers; of the platform, the queue behind
-- the outbox, the reading of the mail's templates and the adapters of its provider, the catalogues,
-- plurals and formats of a language, which are calls of golang.org/x/text, the repository and the JSON
-- of tenancy, the keepers of the keys, and of httpx all but the pipeline and the two
-- endpoints that others call.
pub mod Base
pub mod Policy
pub mod Crypto
pub mod Totp
pub mod Recovery
pub mod Store
pub mod Tx
pub mod Service
pub mod Failures
pub mod EmailCode
pub mod AccountStore
pub mod Credentials
pub mod Challenge
pub mod Answering
pub mod Sessions
pub mod Accounts
pub mod Enrolling
pub mod FactorStore
pub mod ChallengeStore
pub mod RateLimit
pub mod Audit
pub mod Outbox
pub mod I18n
pub mod Tenancy
pub mod Csrf
pub mod Jobs
pub mod Mail
pub mod Webhook
pub mod Config
pub mod Pipeline
pub mod KeyEnrolling
pub mod Origin
pub mod Text
pub mod Hasher
pub mod Tasks
pub mod Staff
pub mod Templates
pub mod Tests
