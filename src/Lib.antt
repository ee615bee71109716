-- ===== src/Lib.antt =====
-- A Go client of the YNAB API (package ynab), from the exact money type to the retry pipeline.
--
-- A caller builds a Client from options (client.go), takes a Plan of it (plan.go) and calls the
-- operations of its services (accounts.go, categories.go, months.go, payees.go, payee_locations.go,
-- money_movements.go, transactions.go, scheduled.go). An operation first checks its arguments
-- (errors.go), then goes through `do` (plan.go): the stored configuration error, the guard against
-- an empty id, and transport.Do (internal/transport/transport.go). That encodes the body, runs the
-- attempts of `execute` (internal/transport/retry.go), and decodes the envelope
-- (internal/transport/envelope.go) or the error (errors.go). Amounts are milliunits (milliunits.go),
-- days and months have wire forms of their own (date.go, month.go), write fields have three states
-- (optional.go), and delta reads keep a cursor and merge into a local store (sync.go, plan.go).
--
-- Where each part is modelled:
--   Base and its children: lists, Go strings as lists of bytes, integers over the native numbers,
--     and the wrap-around of int64. Std: what the code calls of strings, strconv, unicode/utf8,
--     net/url, and Go maps as association lists.
--   Milliunits: milliunits.go. An int64 is an integer, every sum or product is wrapped; the unsigned
--     magnitude is a number below 2^64. SplitEven's panic is `none`.
--   Transport: the types of internal/transport and the record Environment, which holds what lies
--     outside: the limiter's Wait, the token source, http.NewRequestWithContext, http.Client.Do, the
--     context, the select of a backoff, the jitter and the clock, each indexed by attempt or retry.
--     Transport.Delay is RetryAfterDelay and retryDelay, Transport.Attempt is attempt and
--     requestURL, Transport.Pipeline is execute and classify with a trace of attempts and waits,
--     Transport.Path is JoinPath.
--   Errors: errors.go. A Go error chain is the data type Chain.
--   Client: client.go; an Option is what its constructor captures. Client.Call: `do`, Do, DoRaw,
--     decodeData and RawDo.
--   Sync, Plan, Optional, Date, Transactions: the files of these names (Date holds month.go too).
--   Services: the operations of a plan and their run through `do`; Services.Requests has one
--     definition for each, with its checks and the arguments of `do`; Services.Scheduled is
--     scheduled.go.
--   Enums: the string enums with their Valid methods. Models: the read models as records.
--   Payloads: the write payloads with all their fields, and the JSON objects made of them.
--   Contract: internal/contract. Contract itself is diff.go, the comparison of the table of operations
--     with those of the scanned OpenAPI specification; Contract.Table is table.go and
--     Contract.Pattern its PathRegexp; Contract.Rows compares the requests of Services, and those of User and Plans, with the
--     table; Contract.Cases is reads.go and writes.go, Contract.DocLines is doclines.go;
--     Contract.Schema is the walk of schema.go over the component schemas, Contract.SpecScan the
--     line scanner of specscan.go, and Contract.Json the comparison of JSON documents of
--     jsondiff.go.
--   TestServer: internal/ynabtest/server.go, the fake API: its fixtures, routes and handler, with
--     FailWith as a state of the server.
--
-- The loop of `execute` is structural on the attempts that remain, so it always ends; the attempts
-- are the configured maximum, or one. The walk over the schemas has the depth of its calls as fuel;
-- one more than the number of schemas is enough, since each nested call visits another schema. The
-- printing of a number has the number itself plus one, more than its digits.
--
-- Parameters stand for code that is not in the repository: encoding/json at the types of the
-- payloads (a decoder of the envelope, a decoder of the error, the bytes of a body, the quoting of
-- a string, the top-level keys of a body), the object model of the OpenAPI loader, net/url.Parse,
-- http.ParseTime, time.Parse, and time.Time.AddDate with the day that Today returns. The per-attempt timeout
-- is part of what the HTTP client answers.
--
-- Not modelled: float64 amounts (Milliunits.Units), logging, the timer that sleeper reuses, the
-- conversions of Date and Month to and from time.Time, how encoding/json fills a read model, the
-- sorts of table.go and schema.go, the HTTP plumbing of the test server, and the examples.
pub mod Base
pub mod Std
pub mod Milliunits
pub mod Date
pub mod Optional
pub mod Transport
pub mod Errors
pub mod Client
pub mod Sync
pub mod Plan
pub mod Transactions
pub mod Services
pub mod Enums
pub mod Models
pub mod Payloads
pub mod Contract
pub mod TestServer
