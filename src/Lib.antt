-- ===== src/Lib.antt =====
-- CarbonLedger: a verification library for the backend of the carbon credit market (backend/src) and
-- for parts of its web client (frontend).
--
-- The backend is a set of services over one database. Projects are registered, verified or rejected
-- along a status machine; batches of credits with serial numbers are minted for projects, listed,
-- bought, and retired. Three programs copy what the contracts of the Stellar network emit into the
-- same tables: the indexer service, the webhook and the script that indexes from the first ledger on.
-- The oracle submits monitoring data through the job queue. Guards stand before the routes.
--
-- Shared modules:
--   Base        the libraries' names, tests on numbers, lists, integers, texts of digits
--   Prisma      the database client as a parameter: tables with a unique key and the laws of create,
--               update, upsert, find and sum; Prisma.Memory is a table that meets them
--   Action      a call of a service: a result or an error, and the state, which an error keeps
--   Schema      the rows of backend/prisma/schema.prisma and the database
--   Tables      the client's calls on the whole database
-- Components, each with its definitions in a module Service (with Rows or Requests for its data),
-- StateMachine, Store, Listener or one named for them, and its theorems beside them:
--   Projects    backend/src/projects: project-state-machine.service.ts, projects.service.ts
--   Credits     backend/src/credits/credits.service.ts
--   Mail        backend/src/mail (mail.service.ts, mail.processor.ts) and backend/src/notifications
--   Marketplace backend/src/marketplace: marketplace.service.ts, listings-cache.service.ts,
--               marketplace-contract.service.ts and the delist route
--   Auth        backend/src/auth: auth.service.ts, roles.guard.ts, login-rate-limit.guard.ts, with
--               public-api/api-key.guard.ts and oracle/oracle.guard.ts
--   Indexer     backend/src/indexer/indexer.service.ts, triggerReindex of admin/admin.service.ts
--   Webhook     backend/src/webhook: horizon.listener.ts, webhook.processor.ts
--   Genesis     backend/src/indexer.ts
--   Oracle      backend/src/oracle/oracle.service.ts, handleOracleSubmission of
--               queue/queue.processor.ts, over a job queue as a parameter
--   KeyRotation backend/src/key-rotation/key-rotation.service.ts
--   Retirements backend/src/retirements: retirement-indexer.service.ts, verifyCertificateIntegrity of
--               retirements.service.ts, with common/ipfs.service.ts
--   Verifiers   backend/src/verifiers/verifiers.service.ts, the whitelist of admin/admin.service.ts
--   Uploads     backend/src/uploads: ipfs-upload.service.ts, uploads.controller.ts, and
--               retirements/certificate.service.ts
--   Paging      the queries by pages of projects.service.ts, marketplace.service.ts and
--               retirements.service.ts, and backend/src/public-api
--   Audit       backend/src/audit: audit.interceptor.ts, createLog of audit.service.ts
--   Monitoring  backend/src/logger: monitoring.service.ts, alerting.service.ts
--   Stats       backend/src/stats/stats.service.ts
--   Exports     backend/src/export/export.service.ts, and a row of exportCsv of the retirements
--   Frontend    frontend/lib: use-cart-store.ts, formatStroops and parseStroops of stellar.ts;
--               components/ProjectRegistrationForm.tsx, components/Toast.tsx, app/retire/page.tsx,
--               lib/wallet/FreighterWallet.ts, lib/freighter.ts, hooks/useWalletStatus.ts,
--               app/dashboard/Admin (page.tsx and
--               ProjectsTable.tsx) with lib/use-admin-auth.ts and lib/admin-api.ts
--   Tests       sample data, and the theorems at concrete inputs
-- A function has its name of the source in lower case with underscores (mintCredits is mint_credits);
-- an await in a service method is a step of a do block, and a thrown exception is a value of
-- Action.Error. Each method runs from its start to its end, without another request between its
-- steps; only purchases are also taken apart, in Marketplace.Interleaving.
--
-- Choices. The clock, random identifiers, hashes of transactions and the answers of the network are
-- arguments. Amounts are counted in hundredths of a tonne, the scale of the decimal columns, and what
-- a listing offers is an integer, since a purchase is not kept from making it larger. Serials are
-- lists of character codes, since the database compares them as texts. Where JavaScript compares two
-- decimals of the client as texts, their text is a parameter. A number's digits are written with one
-- unit of fuel more than the number, which is enough as Base.Digits shows by reading them back.
-- The fetch of the script takes a unit of fuel for each page, and
-- Genesis.Fetch shows that as many as the server has pages are enough. Recursion is structural
-- everywhere else. A reader who follows the cursors of a query takes a unit of fuel for each page, and
-- Paging.Walk shows that one more than there are rows is enough. A query by pages is asked of a client
-- whose answers with and without a cursor are laws of the parameter Paging.Client. An upload starts
-- its pin without waiting for it, so that the pin is a call of its own, at any later time.
--
-- Not modelled: foreign keys, but for the batch of a mint event of the webhook, and the columns that are
-- not read; the refusal of a retirement that credits.service.ts or indexer.service.ts creates without
-- serialStart and serialEnd, which the schema requires: they are empty there, and the job of the webhook
-- that leaves them out throws; the text of a cached page, which is the page; the failures of a Redis server and its expiry of pages;
-- bulk purchases whose two arrays differ in length; texts of e-mails;
-- negative amounts of stroops; the connection and the byte stream of the webhook; the contracts in
-- Rust, the oracle daemons in Python, the markup and the other pages of the web client, and the
-- deployment.
pub mod Action
pub mod Audit
pub mod Auth
pub mod Base
pub mod Credits
pub mod Exports
pub mod Frontend
pub mod Genesis
pub mod Indexer
pub mod KeyRotation
pub mod Mail
pub mod Marketplace
pub mod Monitoring
pub mod Oracle
pub mod Paging
pub mod Prisma
pub mod Projects
pub mod Retirements
pub mod Schema
pub mod Stats
pub mod Tables
pub mod Tests
pub mod Uploads
pub mod Verifiers
pub mod Webhook
