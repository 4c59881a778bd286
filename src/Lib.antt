-- ===== src/Lib.antt =====
-- O-Artiste takes bookings of artists, holds the client's money in an escrow of an outside provider,
-- and pays it out after the event. This library models the backend's core: the state machine of a
-- booking, the arithmetic of fees and shares, the append-only ledger, the configuration in force, and
-- the operations that move money with their provider calls, transactions and webhooks.
--
-- Parts, files and sources (paths from the repository's root):
--   Schema, Errors    the enums of apps/backend/prisma/schema.prisma; AppError as a value
--   Fees              feeService.ts: fees in kobo, rounding, the breakdowns of each outcome
--   Tiers             cancellationTierService.ts and cancellationService.ts: bands and day counts;
--                     Complete says when a stored table answers for every day
--   Booking           bookingService.ts: the map of transitions; Race has concurrent writers
--   Ledger            ledgerService.ts: entries, reversals, reconciliation; Corrections, Originals and
--                     Reversal follow the reversal of a booking's entries
--   Store             Rows has the tables; transition as a step of a transaction
--   Enforcement       enforcementService.ts: ladders, standing, review of a strike
--   Strikes           strikeService.ts: rules, triggers, accrual
--   Request           what a request is: database, accepted provider calls, effects after a commit;
--                     Runs says what each step does, Atomic what a request that throws leaves behind
--   Versions          commissionService.ts, the versions of cancellationTierService.ts and the settings
--                     of reputationService.ts: publishing, and reading as of an instant; Rules has
--                     the publishing of strikeService.ts and enforcementService.ts
--   Disputes          disputeService.ts: opening, raising, evidence
--   Payouts           payoutService.ts: the account of an artist and payOut, which a release, a
--                     client's split and a ruling call after their commit; Failures, Progress and
--                     Outcomes say how a payout ends
--   Escrow            escrowService.ts: Records has the transactions, Operations and Rulings the
--                     requests, Reclassification and Reclassify the change of a cancellation's
--                     fault, Liabilities what a release settles
--   Creation          createBooking of bookingService.ts; Terms is acknowledgementService.ts, Funding is
--                     createEscrowForBooking and fundingInstructionFor of escrowService.ts
--   Confirmation      confirmationService.ts: the matrix and the requests that act on it
--   AutoRelease       jobs/autoReleaseJob.ts: scheduling and the payment on silence
--   CheckIn           checkInService.ts: codes, issue, redemption
--   Webhooks          webhookService.ts: the handlers that move a booking; Reports has those that only
--                     report, Intake the receipt of a delivery, its dispatch and its replay
--   Reputation        reputationService.ts: cancellation rates of one party and of many artists
--   MyBookings        myBookingsService.ts: what waits on a person, and the order of the listing;
--                     Listing is about the order, Offers about what is offered
--   Books             what the ledger must say in each state, and the requests that keep it: those of
--                     Demand, which leaves out the event that an escrow was
--                     cancelled and the reclassification of a cancellation
--   Examples, Scenarios, Trials   inputs and tests
-- All services are in apps/backend/src/services.
--
-- A request calls the provider first and records after: an instruction that was accepted stays in the
-- world's list when a later step throws, and a transaction that throws or does not commit leaves the
-- database as it was. A step that throws after a commit leaves what the transaction wrote. The
-- environment of a request gives its instant, which instructions the provider accepts, which
-- transactions commit, and the wallet and the id of a payout that the provider gives; only a theorem
-- that a request goes through assumes anything of them. Notices and reads do not fail.
-- Requests run one after another, but for Booking.Race, where the steps of several writers interleave.
--
-- Amounts are natural numbers of kobo, differences are integers, instants are milliseconds. No
-- recursion needs fuel. A query for a configuration in force takes the last row at or before the
-- instant. Ids are natural numbers; a row's id is its place in its table.
--
-- The verdict on a webhook's signature, the answers of the provider, the start of a window some months
-- back, and ids and references that are drawn at random are arguments.
--
-- Not modelled: texts and messages, the HTTP client of the provider, the queue, the list of banks and
-- the choice of a wallet, verificationService, routes, the listings of an administrator, and the web
-- application.
pub mod Prelude
pub mod Schema
pub mod Errors
pub mod Fees
pub mod Tiers
pub mod Booking
pub mod Ledger
pub mod Store
pub mod Enforcement
pub mod Strikes
pub mod Request
pub mod Disputes
pub mod Escrow
pub mod Confirmation
pub mod AutoRelease
pub mod CheckIn
pub mod Webhooks
pub mod Versions
pub mod Creation
pub mod Payouts
pub mod Reputation
pub mod MyBookings
pub mod Books
mod Examples
mod Scenarios
mod Trials
