-- ===== src/Lib.antt =====
-- A ledger service over TigerBeetle, in Go: an HTTP API for the accounts of corporate wallets and
-- cards, for transfers of funds between them, and for card authorizations as pending transfers. A
-- request is checked, the accounts that it names are looked up (in a cache of metadata, or in
-- TigerBeetle), and one transfer is submitted, whose result becomes the response.
--
-- The files and the code:
--   Prelude      shared names, Boolean tests, list lemmas, and the integers over native numbers
--   Domain       internal/domain: kinds, messages (Domain/Messages), errors and results
--   Sdk          the TigerBeetle SDK as far as the program uses it: its records and result codes; its
--                functions (`Sdk`) and its client, the clock and timers (`Env`) are parameters
--   Recipe       internal/ledger/model.go: `Account` and the codes; Recipe/Laws against a table
--   Client       internal/ledger/client.go: `NewClient`, `CreateAccount`, `CreateTransfer` and the two lookups
--   Assoc        Go's maps as association lists
--   Cache        internal/service/cache.go: `Load`, `Store`, `Len`; Cache/Invariant, Cache/Eviction, and
--                Cache/Queue with the queue that the cache implements
--   Clock        times and durations of the Go library, in nanoseconds, with the wrap of `int64`
--   Health       internal/service/health.go: `begin`, the function it returns (`finish`), `findOldest`,
--                `Health`; Health/Interleaving has the calls of all goroutines as a step relation
--   Service      internal/service/service.go and operations.go:
--     Text, Ids          `validateExternalID`, `parsePublicTigerBeetleID`, `requestID`, `accountID`
--     Metadata           `accountKind`, `metadataForAccount`, `balances`
--     World              the state of a request and the calls that change it: `observedLedger`'s calls,
--                        `observeCompletion`
--     Status             `isIdempotencyConflict`, `isAccountIdempotencyConflict`, `errorCode`
--     Calls              `rememberAccount`, `requireAccountKind`, `evaluateRisk`
--     Accounts           `EnsureSystemAccounts`, `CreateAccount`, `Balance`; Accounts/Replies has the answers
--     Transactions       `executeTransaction`, `TopUp`, `Withdraw`, `moveCardFunds` and its two callers
--     Authorization      `Authorize`, `merchantFingerprint`, `sameTransfer`; Authorization/Holds has the hold
--     Increment          `IncrementAuthorization`, `lookupExistingIncrement`, `incrementFailure`;
--                        Increment/Increments has the increment
--     Start              `New`
--     Reporting          what `observedLedger` has counted, and the calls that it has in flight
--     Rules              the ledger's documented behaviour (`LedgerLaws`), the soundness of the state, and
--                        the rules by which the chains of calls are read
--     Panics             the operations and panics
--   Config       internal/config/config.go: `Load`; Config/Parse has what it uses of strconv and strings,
--                Config/Settings how a variable is read, Config/Accepted what it accepts,
--                Config/Durations what becomes of a timeout
--   Http         internal/httpapi and internal/observability/metrics.go:
--     Writer, Metrics    `writeJSON`, the calls on an `http.ResponseWriter`, the methods of `Metrics`, and
--                        `statusWriter`; Capture is about the latter
--     Errors, Request    `writeError`, `decodeJSON`
--     Handlers, Routes   the methods of `Server`, `admissionController.Wrap`, `HTTPMiddleware`,
--                        `recoverPanics`, `NewHandler`
--     Safety, Serving    what a request does to the service and sends to the ledger
--     Replies, Answers   what a client is answered, and what is counted of it; Panics: the handlers and panics
--     Collectors         `NewMetrics`: the collectors and their registration
--     Admission          `Wrap` as the steps of many requests; Refusals relates the two views of it
--   Main         cmd/ledger-service/main.go: `run` and `main`; Main/Start on what they come to serve,
--                Main/Serving about a process that serves, Main/Reports on what it has reported
--   Loadtest     cmd/loadtest/main.go: `parseFlags`, `validate`, `execute`, `failureReason`; Loadtest/Report has
--                `benchmark` from the results on, Loadtest/Tally is about the report;
--                Loadtest/Workers has the goroutines and the channels of `benchmark`, and
--                Loadtest/Program has `main`
--   Tests        a small ledger, a web front, runs of the requests on it, and instances of the theorems
--
-- A method of the service is a function from the state (`World`: the outside world, the cache, the
-- calls in flight, the events so far) to a result and a state. Each call of the SDK, the metrics and
-- the log leaves an event, so that what a request submits is read off the events. A reading of the
-- clock and a wait may change the outside world in any way that loses no account and no transfer, so
-- other clients of the ledger may act between the calls of a request. The other requests of the
-- process share the cache: at each of these points they may store any accounts that the ledger has
-- (`others` of `Env`, in `resumed`). The record of the calls in flight is this request's alone there;
-- that of all goroutines is Health/Interleaving.
--
-- Numbers: IDs and amounts are natural numbers; `int64`, `uint64` and `uint32` arithmetic has its wrap
-- written out; balances are unbounded integers as in the code (`big.Int`). There is no fuel: the
-- program's loops run over lists. The record of the calls in flight is right for fewer than 2^64 calls
-- of a process, after which the IDs of the calls repeat.
--
-- A handler of the HTTP layer is a function from a request and the state of the process (`Process`:
-- the state of the service, the admission slots taken, the samples of the metrics) to its calls on the
-- response writer, whether it returned or panicked, and a state. A method that panics is the error
-- `panicked`. The requests of a process are handled one after the other there; their interleaving in
-- the admission is Http/Admission, and that of the ledger calls Health/Interleaving.
--
-- Relied on, as hypotheses: `LedgerLaws` (a lookup returns what the ledger has, under the ID asked
-- for; an account reported as created or existing is there; neither accounts nor transfers disappear;
-- what other requests store they have looked up or created there), the names that the Prometheus
-- registry accepts (`PrometheusLaws`), the bytes of a 128-bit number in `is_uint128_max_iff`, and that
-- the ledger enforces the flags of an account in `balances_bounds`.
--
-- Parameters, besides the SDK: the environment, `time.ParseDuration`, the JSON decoder, the parser of
-- media types, `strings.EqualFold`, the router of net/http, the registry of the Prometheus client, the
-- page of promhttp, the SDK's `NewClient`, the listener and the signals, and of the load generator the
-- flags, the HTTP client, and the index that it computes in floating point.
--
-- Not modelled: the division in floating point of the rate that the load generator reports, which is
-- kept as its dividend and divisor, and its texts of errors; the buckets of the histograms; the
-- timeouts of the HTTP server and `Client.Close`, which net/http and the SDK carry out; the texts of
-- wrapped errors that no client sees and the field `transaction_id` of the log line, which repeats
-- `request_id`. `time.Time` is a number, so the monotonic clock and the wall clock are one, and the
-- default logger is not modelled, nor the log lines outside the service.
pub mod Prelude
pub mod Domain
pub mod Sdk
pub mod Recipe
pub mod Assoc
pub mod Cache
pub mod Clock
pub mod Health
pub mod Client
pub mod Service
pub mod Config
pub mod Http
pub mod Main
pub mod Loadtest
mod Tests
