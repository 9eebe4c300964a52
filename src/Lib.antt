-- ===== src/Lib.antt =====
-- StellarKraal lends against livestock: an Express server keeps collateral, loans and transactions
-- in in-memory tables and builds unsigned transactions for a Stellar contract, whose events it reads
-- back; pages in the browser show them. This library models the server's own logic, backend/src, and
-- the logic of the browser's hooks and clients, frontend/src.
--
-- The parts and their files:
--   Store       backend/src/db/store.ts. The four Maps are association lists in insertion order; a
--               call that changes a table takes the store and returns its result with the new one.
--               insertLoan is insert_loan, and so on; Store.Calls has all writing calls as a type, and
--               Store.Refinement what they mean on tables that are functions of the id.
--   Loans       Create: POST /api/loan/create of backend/src/index.ts, cut at its await into
--               create_begin and create_finish, which System interleaves; Repay: PUT
--               /api/loans/:id/repay over the store and the cache; Interest: backend/src/interestRate.ts; State:
--               backend/src/loanStateMachine.ts; Liquidate: liquidateLoan of
--               backend/src/services/loanService.ts and its route in backend/src/routes/v1.ts.
--   Alerting    backend/src/utils/alerting.ts and alertRules.ts.
--   HealthJob   backend/src/jobs/healthFactorJob.ts, which reads and writes the store through
--               list_active_loans and update_loan and alerts through fire_alert.
--   Pool        backend/src/utils/connectionPool.ts.
--   RpcClient   backend/src/utils/rpcClient.ts: the calls over that pool, behind circuit breakers; a call
--               that its breaker has given up goes on and keeps its server.
--   Auth        backend/src/middleware/apiKey.ts (ApiKey) and auth.ts (Tokens, Gate): the gate asks
--               the API keys for a token that begins with sk_ and verifies any other as a JWT.
--   Caches      backend/src/middleware/idempotency.ts and deduplication.ts, backend/src/utils/
--               appraisalCache.ts and responseCache.ts.
--   Routes      routes of backend/src/index.ts over the store and the caches: Collateral, Appraise,
--               Loans (preview, estimate, listing, deletion),
--               Transactions (the listings of transactions and collateral, the loan detail; Privacy
--               says whose they are), Webhooks (the registration
--               and the removal of a webhook), Admin (the upload of an animal, the listing of collateral
--               for a kind of animal, the query of the audit log, the run of the health job, the alerts of
--               AWS) and V1: the listing, the admin routes, the settings and the transaction status of
--               backend/src/routes/v1.ts.
--   Webhooks    backend/src/webhooks.ts: registration and delivery; Fire: fireWebhooks, which begins a
--               delivery for each registration, and the encryption of a payload.
--   Contract    the calls of the contract that the routes of backend/src/index.ts and
--               backend/src/services build (Calls, Requests), the argument types of the functions of
--               contracts/stellarkraal/src/lib.rs, backend/src/utils/sorobanErrors.ts, and the
--               repayment under an idempotency key (Repay); Reads: the simulated reads of a loan and of
--               the fees, and the decoding of what they give.
--   Listener    backend/src/contractEventListener.ts: an event writes to the store through insert_loan
--               and the others (Laws, Owners), Cursor is the poll, Timers its start and stop.
--   Reminder    backend/src/jobs/repaymentReminderJob.ts.
--   Audit       redact of backend/src/middleware/audit.ts.
--   Server      the error handler and the window of 5xx errors, the health checks and the graceful
--               shutdown of backend/src/index.ts, middleware/errorHandler.ts and routes/health.ts, and
--               the timers of backend/src/middleware/timeout.ts (Timeout).
--   Startup     backend/src/config.ts: the checks of the environment; Database: backend/src/db/database.ts,
--               db/migrationRunner.ts and cli/migrate.ts.
--   Validate    backend/src/middleware/validate.ts, and toValidationMessagesByField of
--               backend/src/validators/collateral.ts.
--   Frontend    frontend/src/lib/stellarKraalSdk.ts (Client) and stellarUtils.ts (Submit), and
--               frontend/src/hooks/useSearchFilter.ts (Filters) and usePagination.ts (Pagination),
--               the reducer of frontend/src/lib/adminSlice.ts (Admin), and the draft of a form,
--               frontend/src/hooks/useFormAutoSave.ts (AutoSave). Wizard is
--               frontend/src/context/LoanWizardContext.tsx with StepAmount.tsx, Items the list of
--               StepCollateral.tsx, Toasts frontend/src/context/ToastContext.tsx; of
--               frontend/src/components: Forms (LoanForm.tsx), Registration
--               (CollateralRegistrationForm.tsx), Whitelist (LiquidatorWhitelist.tsx with its page), Gauge
--               (HealthGauge.tsx) and Preferences (NotificationPreferences.tsx); of frontend/src/hooks:
--               Countdown (useFetchWithRateLimit.ts), Rates (useCurrencyConversion.ts), Wallet (useWallet.ts)
--               and ButtonState (useButtonState.ts).
--   Cors        backend/src/middleware/cors.ts.
--   Http        what handlers answer and are called with.
--   Common      lists, maps, sorting and tests on the native numbers.
--   Examples    each of the results below at concrete inputs.
--
-- Representation: an instant is a number of milliseconds, where the source keeps ISO strings and
-- reads them back; amounts are whole numbers; a health factor is an exact ratio where the source has
-- a double; Array.prototype.sort is a stable insertion sort. The clock, random ids and tokens, and
-- the outcome of a call outside this repository (the contract, the SDK, Node's crypto, the mail) are
-- arguments. A subtraction on ℕ stops at 0; where the source's could go below, the guard before it
-- is modelled.
--
-- Loops are recursion on lists, or on the number of rounds that the source's own bound gives (three
-- tries of a call, five of a webhook, the minimum of the pool, twenty waits for a transaction); no fuel
-- is used.
--
-- Not modelled: Express itself, zod schemas (handlers take their result), rate limits, logging,
-- metrics, the SQL driver, the code of the contract in Rust (only the types of
-- its functions' arguments and of two records are), and the markup of the React components and pages.
pub mod Common
pub mod Store
pub mod Http
pub mod Loans
pub mod Alerting
pub mod HealthJob
pub mod Pool
pub mod Auth
pub mod Caches
pub mod Webhooks
pub mod Routes
pub mod RpcClient
pub mod Listener
pub mod Reminder
pub mod Audit
pub mod Server
pub mod Startup
pub mod Validate
pub mod Contract
pub mod Frontend
pub mod Cors
pub mod Examples
