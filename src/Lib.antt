-- ===== src/Lib.antt =====
-- relais is a submission service for mail. A client hands it a message over REST or SMTP; the
-- service authenticates a credential, checks that the credential may use the sender that the
-- message names, puts the message and a delivery job in Postgres, and a worker gives it to the
-- relay of the sender's domain. This library models that path.
--
-- Base, Text: numbers, lists, results, and the functions of Go's `strings` that the code uses,
--   on lists of code points.
-- FromPattern (internal/frompattern/frompattern.go): addresses, sender patterns and allow-lists.
--   Normalize, Parse and Matching are the code; Canonical, Domain, RoundTrip, PatternRoundTrip,
--   Covers and AllowList are about it.
-- Crypto (internal/crypto): Keyring (keyring.go) is `ParseKeyring`, `Seal`, `Open` and
--   `NeedsRewrap`, and Seal is about it; Secret (secret.go) mints and parses secrets.
-- RateLimit (internal/ratelimit/ratelimit.go): the token buckets and their eviction. A map is a
--   list of its entries in any order.
-- Store (internal/store, internal/db/queries, internal/db/migrations): Rows has the tables and
--   the queries, Session a run against the database, Messages and Marks the operations of
--   email.go, Routes those that choose a relay, Backends those on relays (backend.go), with
--   Creation and Passwords about them. Status, Reads, Insert, Resolve and Retention are about
--   them. Vault has the tables of credentials, Credentials their queries and, in Operations, the
--   functions of credential.go; Revoked and Revocation are about them.
-- Sender (internal/sender/sender.go): the errors and the result, Exchange (`classify`,
--   `deliver`) and Handshake (`dial`, `handshake`, `authenticate`, `Send`); Recipients,
--   Secrecy and Decimal are about them.
-- Jobs (internal/jobs/jobs.go): `SendEmailWorker.Work`, with a function for each place where the
--   code goes on after a call of the store. Ends, Once, Idle, History, Redelivery and Rounds are
--   about it.
-- Mailnorm (internal/mailnorm/mailnorm.go): `splitMessage`, the line ends, and in Parse the rest
--   of `Parse`, and `ReadAll`; Lines, Split, Bounds, Accepted and Outgoing are about them.
-- Ingest (internal/ingest/ingest.go): `Submit`, `validateRecipients` and `reject`, with the
--   types in Submission; Authorized, Envelope and Genuine are about them.
-- Authn (internal/authn/authn.go): bearer tokens, API keys, SMTP users and `verify`; Checks,
--   Token, Reads and Revoked are about them.
-- Smtpd (internal/smtpd/smtpd.go): `New` and the replies; Session has the calls of a session and
--   Protocol the order in which the library may make them, which is any. Cleartext, Moves, Phases,
--   Traces and Replies are about them.
-- Mailbuild (internal/mailbuild/mailbuild.go): the checks of a message's fields, and in Build
--   `Build` itself; Envelope and Recipients are about it.
-- Httpapi (internal/httpapi): the answers of errors.go and of `writeStoreError`, and the decoding
--   of a body; Emails is `requireAPIKey` and the two routes of emails.go. Queued and Private are
--   about them.
-- Examples: concrete runs.
--
-- The REST and the SMTP facade authenticate a client with Authn and then submit; the REST facade
-- builds the message with Mailbuild first. A submission calls FromPattern
-- for the sender and the recipients, RateLimit before any write, and Store for the route and for
-- the transaction that writes the message with its job. The worker calls Store, and Sender with
-- the route that it got, and records the answer with Store.
--
-- That the relay takes a message means here that `Send` has returned no error: a relay that takes it
-- but whose last reply is lost counts as not having taken it.
--
-- State is passed explicitly. `World` is the database with a script of faults: each query takes
-- the next element and fails, changing nothing, if it is `true`. A theorem about every script is
-- about every place where the database can fail. Two workers at once are not modelled: a run of
-- `work` is one sequence of queries. Logging is left out, and errors keep the case that the code
-- tells apart, their texts only where they are stored.
--
-- Parameters stand for what the repository does not hold: `Idna` for golang.org/x/net/idna and
-- `unicode`, `Ciphers` for AES-GCM and base64, `Digests` for HMAC and base32, `Rates` for
-- golang.org/x/time/rate and float64, `Peer` and `Relay` for the network, crypto/tls and the
-- SMTP client, `Job` for river, `Headers` and `Writer` for go-message and mime, `Parsers` for
-- net/mail and how fmt prints, `Decoded` for what encoding/json has read, `Sql` for what Postgres
-- does with a text. `IsStable`, `IsCipher` and `IsHeaders` are what is assumed of them.
-- `Service.parse_mail` stands for internal/mailnorm with the options of the service; `Genuine`
-- puts the modelled parser there.
--
-- `digits_onto` runs on fuel: a number has at most as many digits as its value and one more, and
-- the callers give it that. Every other function is structural recursion.
--
-- An integer of the source keeps its width where the code depends on it: the size of a row is an
-- int32, and the limit of `ReadAll` an int64.
--
-- Not modelled: the HTTP routes of the administration and of the health checks, the listeners of
-- the SMTP server, the configuration, TLS certificates, the administration of domains, the command
-- line, and the generated queries, which are the glue between the queries and the store.
pub mod Base
pub mod Text
pub mod FromPattern
pub mod Crypto
pub mod RateLimit
pub mod Store
pub mod Sender
pub mod Smtpd
pub mod Jobs
pub mod Mailbuild
pub mod Mailnorm
pub mod Httpapi
pub mod Ingest
pub mod Authn
pub mod Examples
