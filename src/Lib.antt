-- ===== src/Lib.antt =====
-- Verification of the control plane of managed-oss-cloud: the server that sells, places and runs
-- open-source applications on worker nodes, and the suite of business records that it keeps for
-- each workspace. Paths below are from the repository's root.
--
-- Parts. A customer selects applications; Pricing quotes a plan for them (src/shared/pricing.ts),
-- Capacity computes what a plan grants and what applications use (src/shared/plan-capacity.ts),
-- and Placement assigns the reservations to worker nodes (`allocateCapacity` of
-- src/server/repository.ts). Store holds the state of `MemoryRepository`
-- (src/server/repository.ts) as a record of its maps, and the other parts of that class are its
-- operations. Holds keeps the capacity of a selection reserved while the customer pays
-- (`acquireCheckoutCapacityHold` and its companions), and uses Placement and Capacity. Checkout
-- turns a paid hold into an allocation, placed applications and install jobs
-- (`processPaidCheckout`, `fulfillPaidCheckout`, `retryPaidCheckoutCapacityRecovery`), and
-- Recovery follows a paid checkout that found no capacity to its compensation
-- (`advancePaidCheckoutCapacityRecovery`, `markPaidCheckoutCapacityCompensated`). Resize holds the
-- target of a change of plan and applies it once (`acquirePlanCapacityChangeHold`,
-- `consumePlanCapacityChangeHold`). Installations has the installations, their domains,
-- applications and clones (`createApplicationInstances`, `createApplicationClone`). Jobs has the
-- queue of provisioning jobs, Workers the nodes that claim and report them (`claimWorkerJob`,
-- `reportWorkerJob`). Entitlement follows the subscriptions (`updateSubscriptionStatus`,
-- `applySubscriptionReconciliation`) and suspends what is not paid for; Routes lists what the
-- gateway and the nodes may serve (`listGatewayRoutes`), with the custom domains that Hostnames
-- has seen proved (src/server/hostname-claims.ts). Accounts has the users and sessions, Oauth the
-- sign-in flows of managed applications (`createManagedOAuthFlow`, `consumeManagedOAuthFlow`).
-- Visibility decides who reads a record of the suite (src/server/suite-record-visibility.ts).
-- Destinations decides which IPv4 addresses a request to another host may go to
-- (src/server/public-destination.ts). Types holds the records that the parts exchange
-- (src/shared/types.ts), Common the helpers they share, Samples the records that tests start from.
--
-- Correspondence. A function keeps its name, in snake case; a record keeps its fields. A text is a
-- `String`, a timestamp its instant in milliseconds, a `Map` a `Dict` in the order of insertion,
-- an optional field an `Option`. An operation runs at one instant, an argument, where the source
-- may read the clock several times; identifiers that it draws are arguments too, as functions of
-- what they are drawn for where there are several; so are the hashes that it computes. Code that
-- throws returns a `Result` with the message of the error, next to the store where something was
-- written before, and the visibility checks an `Access`, one of whose values is the `TypeError`.
-- Whole numbers are natural numbers, and a difference that may be negative is an integer. The sums
-- of `applicationCapacityUsage`, which checks its summands and not the sums, are rounded to
-- doubles; other sums of whole numbers are taken to be exact, which doubles are up to 2^53. The
-- order of `localeCompare` and the arithmetic of fractional numbers are parameters. All recursion
-- is structural. The one fuel is that of the rounding, which looks for the distance between
-- doubles: from safe integers a sum would need more summands than an array holds to go beyond the
-- forty distances that it tries.
--
-- Not modelled: the SQL repository, the HTTP routes, the client, the calls of the payment provider
-- and of Docker, and the engines of the suite's business actions. The answer of a reconciliation,
-- which lists plans, is left out of `MemoryRepository`, and so are the readings of a URL in
-- src/server/hostname-claims.ts, and IPv6 addresses and the resolution of names in
-- src/server/public-destination.ts. Display fields of a catalogue entry are left out of
-- `CatalogApp`.
pub mod Common
pub mod Holds
pub mod Types
pub mod Capacity
pub mod Pricing
pub mod Hostnames
pub mod Oauth
pub mod Placement
pub mod Recovery
pub mod Resize
pub mod Store
pub mod Visibility
pub mod Jobs
pub mod Entitlement
pub mod Routes
pub mod Workers
pub mod Checkout
pub mod Samples
pub mod Installations
pub mod Accounts
pub mod Destinations
