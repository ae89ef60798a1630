-- ===== src/Lib.antt =====
-- wizteros: the membership bridge between Stripe, Wizarr and Plex (apps/stripe-bridge), the incident tables
-- of the monitor of its servers (apps/fleet-monitor), and the income figures of the admin portal
-- (apps/admin-portal). Stripe delivers events to it; the bridge keeps a SQLite store of who pays, resolves
-- the payer to the records that Wizarr holds of the person, and mints invites, stamps expiries and disables
-- records.
--
-- The parts, and the files of apps/stripe-bridge/src/ that they model:
--
--   Common     the shared vocabulary: tests on numbers and texts, lists as arrays and sets,
--              association lists as `Map`s, the text operations.
--   Json       parsed JSON and its readers (webhook/handlers.ts, libs/server-common/src/records.ts).
--   Standing   standing.ts: the tag of a member, and the strongest across several addresses.
--   Status     subscriptionStatus.ts: what a subscription status means.
--   Tiers      tiers.ts: the libraries of each tier, an invite's scope, the checks on library names.
--   Store      store/: the tables (Tables, of schema.ts), customers.ts (Customers), overrides.ts
--              (Overrides), events.ts and invites.ts (Records). Each operation is a function of the
--              whole store, named as in the source.
--   Identity   identity.ts: the person behind an address, and `redeemerRecord` of clients/wizarr.ts.
--   Links      memberLinks.ts: the check of a manual link between two addresses.
--   Bridge     types.ts: the services as functions of the calls made so far (Types), code that keeps a
--              store, calls services and may throw (Run, with sequence.ts), one action for each
--              operation of a service (Calls).
--   Members    members.ts: a Stripe customer resolved to a person over the bridge.
--   Invites    invites.ts and duplicates.ts: scoping, minting, delivering an invite, re-scoping
--              records, retiring a duplicate subscription.
--   Webhook    webhook/handlers.ts: the payer (Payer), what is done to records (Effects), the handlers
--              (Handlers, Dunning), the table of handlers and `handleEvent` (Dispatch).
--   Reconcile  reconcile.ts: the sweep that stamps a missing expiry; of baseline.ts, the reaping.
--   Admin      admin/billing.ts (Billing) and admin/actions.ts (Actions, Grants): the bans, links,
--              cancellations, resets and reissues of the admin routes.
--   Sweeps     changeAlert.ts (Alarm), sweeps.ts with the sweep of loops.ts (Checks, Problems), and the
--              rotation of baseline.ts (Rotation).
--   Fleet      apps/fleet-monitor/src/: incidents.ts (Tables, Like, Incidents), probes/docker.ts
--              (Docker), of collector.ts which checks a round records (Collect), and of store.ts the table
--              of samples with its readers, rates and retention (Samples).
--   Portal     apps/admin-portal/src/lib/: memberStatus.ts (Member), and of income.ts today's income
--              (Income), the log walked into events (Walk) and the monthly series (Series);
--              duplicateMembers.ts (Twins), libraryAccess.ts (Access).
--   Tests      concrete members and services, and the theorems at them.
--
-- How the model stands to the code. Records and data types have the source's fields and cases; a function
-- that returns null or undefined returns an Option; a `Map` or a `Set` is a list in insertion order. Code
-- over the bridge is a function of a world, the store and the calls made so far, and returns a result or an
-- error with the world it leaves, so that what was written before a throw stays written. A service's answer
-- is any function of the calls made before it, and none is a throw: nothing is assumed of Stripe, Wizarr,
-- Plex or the mail server, but that alerts, dunning mails, Plex's live sections and the clock do not throw,
-- as types.ts says. Every loop of the source goes over a list and is structural recursion, and needs no
-- fuel, but for the loop over the months of the income series, which the source itself ends after 240
-- months; Portal/Months says when that is enough.
--
-- What differs. Texts are lowercased on ASCII letters, where JavaScript and SQLite agree. Instants are
-- numbers of milliseconds from the start of year 1, and not their ISO texts. An entry of the action history
-- and an alert are a constructor with the values that their wording is made from. Log lines are dropped.
-- Ids are natural numbers, and the numbers in JSON are their literals. The portal's months are numbers,
-- twelve to the year, and the month of an instant is a parameter; a date that does not parse counts as
-- none; a signed amount is a gain or a loss. A sample's value is of any type, and a rate is what a counter
-- gained over how long. Prices are the dollars of site.config.ts. The length of a text counts its
-- characters, which is what JavaScript counts for the characters of addresses. Dates lie in the range of
-- JavaScript's Date, so that writing one out (an expiry, the next retry of an invoice) does not throw; only
-- the days of an admin request are checked for it. The store does not fail, and one handler runs at a time:
-- no other delivery comes between its calls.
--
-- Not modelled: HTTP, signatures, configuration, timers and the service clients, which are input and
-- output; the members list of the admin routes; of the fleet monitor the query by a prefix, the charts, the
-- probes and the play ledger; the pages of the admin portal, its wording and its other calculations.
pub mod Common
pub mod Standing
pub mod Status
pub mod Tiers
pub mod Store
pub mod Identity
pub mod Links
pub mod Bridge
pub mod Json
pub mod Members
pub mod Invites
pub mod Webhook
pub mod Reconcile
pub mod Admin
pub mod Fleet
pub mod Sweeps
pub mod Portal
pub mod Tests
