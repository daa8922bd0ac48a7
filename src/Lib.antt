-- ===== src/Lib.antt =====
-- The metered gateway of apipool: prepaid wallets, pricing, the life of a request, the workers that
-- look after it, and the credits of the site.
--
-- A call to the gateway is admitted under the user's risk limit, forwarded, given the upstream's
-- request id, and at last settled against the wallet or failed without a charge. The files:
--
--   Base      tables as lists of rows, results, the integers, JavaScript's numbers, JSON values
--   Wallet    src/features/wallet/server/ledger.ts and freeze.ts, src/features/wallet/lib/
--             adjustment-input.ts, src/shared/models/portal-admin-audit.ts, and the wallet tables of
--             src/config/db/schema.sqlite.ts: Defs has the rows, Ledger `appendLedgerEntryInTx`,
--             Adjust `applyManualAdjustment` and `reverseRequestCharge`, Freeze and Amount the rest;
--             Balance, Commit, Idempotency, Retry, Reversal, Frozen and AmountLaws hold proofs
--   Billing   src/features/gateway/lib/billing.ts, meters.ts and pricing-spec.ts, and
--             src/features/api-catalog/lib/sku-rule.ts: Meters, Usage and Normalize split usage into
--             meters, Spec and SkuCheck check a stored pricing spec, Sku evaluates its rule, Charge
--             computes the charge; Keyed, LongMeters, Rounding, Conservation, Checked,
--             Numerators, Priced and SkuBounds hold proofs
--   Gateway   src/features/gateway/lib/endpoints.ts, src/features/gateway/server/admission.ts and
--             settlement.ts: Requests has the store that the operations share, Admission and
--             Settlement the operations, Forward the decision to forward a call; Lifecycle makes the
--             operations a step relation on the store, and Charging, Once, Settles, Finality and
--             ForwardPriced hold proofs
--   Jobs      src/features/gateway/server/jobs.ts and backfill.ts: Lock has the lock row and the
--             controller of a process, Processes lets several of them ask and wait, Sweep is the
--             usage worker, which ends requests by the operations of Gateway; Heartbeats, Lease,
--             Recovery and Swept hold proofs
--   Tasks     src/features/gateway/server/image-tasks.ts: Defs has the task rows and how a worker
--             claims the ones that are due and retries one; Leases, Retries, Meanwhile and
--             Claims hold proofs
--   Scanner   src/features/gateway/lib/sse-parser.ts: Text reads JSON strings byte by byte, Extract
--             the model, the stream flag and the image count of a body; Chars says what a string
--             says, Print writes one as `JSON.stringify` does, Spelling in any spelling, Values
--             prints bodies, and Matching, Bounded, Runs, Deep, Objects, Models, Streams, Counts and
--             Facts hold proofs
--   Events    src/features/gateway/lib/sse-parser.ts: Line is what a line of an event stream does to
--             the usage found so far, Extractor cuts chunks into lines; Drains and Chunks hold proofs
--   Credits   src/shared/models/credit.ts: Defs has the rows and operations; Rows, Purse, Paying,
--             Kept, Rounds, Consume, Promises, Outcomes and Grants hold proofs
--
-- Gateway and Jobs share the request ledger, Gateway and Wallet the accounts and their ledger;
-- Credits is a table of its own, Scanner reads the body that Gateway admits, and Events the stream
-- that it settles.
--
-- Names are the source's in snake_case: `apply_manual_adjustment` is `applyManualAdjustment`. The
-- store is passed along: an operation takes the tables and returns them with its result, and a
-- transaction that throws returns an error alone, so that its caller keeps the tables it had. What
-- the source reads from elsewhere is an argument: the clock, fresh ids, the settings, `JSON.parse`,
-- the text of a number, the callback of a settlement, and what other connections write between the
-- statements of one operation. An attempt of an adjustment may meet any error of the database.
--
-- Amounts are integers without bound; the source tests every amount to be a safe integer where it
-- enters, and that test is modelled. Balances and sums of one statement are not bounded in the
-- source either. The retries of an adjustment run on a fuel of 5, which is the source's own bound on
-- its rounds, so that none is cut short by the model. The loop of `consumeCredits` runs on 11, its
-- ten batch numbers and one, and a scan of a body on the length of the body, of which each round
-- reads a byte. How long an answer of the database may take is a parameter of Jobs, which the source
-- leaves open. A position in a body is the list of the bytes behind it.
--
-- Not modelled: foreign keys and the check constraint of `request_ledger`, the columns that log
-- backfill and reconciliation use, the wording of errors and logs, and the waiting time between
-- retries. The readers of image results and of bodies that are no stream, reconciliation, the order
-- of the workers in a tick, the end of a claimed task, routing and publication, sessions and
-- pages have no model here.
pub mod Base
pub mod Wallet
pub mod Billing
pub mod Gateway
pub mod Credits
pub mod Events
pub mod Jobs
pub mod Scanner
pub mod Tasks
