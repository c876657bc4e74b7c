-- ===== src/Lib.antt =====
-- Fruct CRM: a NestJS backend for a shop that sells chairs. A request passes the guards, which find
-- its user and tenant; a controller hands it to a service; a service reads and writes PostgreSQL
-- tables through Prisma, and throws an HTTP exception when it refuses.
--
-- Which file models which part:
--   Prelude, Prelude/Tests, Prelude/Lists, Prelude/Tables, Prelude/Int: shared names, Boolean tests,
--     lists, tables with unique keys, integers. Prelude/Sorting, Prelude/Groups and Prelude/Maps: a
--     stable sort, the groups of an SQL query, and JavaScript's Map. Prelude/Texts, Prelude/Mapped: texts
--     with colons between their parts, and lists after a function.
--   Action: the methods of a service, as functions of the state that return or throw.
--   Schema, Schema/Rows: prisma/schema.prisma, a record for each table and `Db` for the database.
--   Platform: what the services take from decimal.js and @prisma/client, as parameters with the laws
--     that are relied on. Platform/Sample and Samples: one such platform and a database, for examples.
--   Session: the authenticated user, and what a request takes from its context and the clock.
--   Leads: src/leads/leads.service.ts. Leads/Visibility and Leads/Response: its theorems.
--   Deals/Status: src/deals/deal-status-transitions.ts. Deals/Pricing, Deals/Creation and
--     Deals/StatusChange: src/deals/deals.service.ts. Deals/Stocks, Deals/Reservation, Deals/Ledger,
--     Deals/CreateLedger, Deals/ChangeLedger and Deals/History: the stock ledger.
--   Payouts/Period, Payouts/Generation and Payouts/Approval: src/payouts/payouts.service.ts: what the
--     managers have earned, `generate`, and the rest of PayoutsService. Payouts/Linking,
--     Payouts/Generated, Payouts/Recalculated, Payouts/Repeated, Payouts/Evolution, Payouts/States, Payouts/Lifecycle and
--     Payouts/Visibility: its theorems.
--   Security: @nestjs/jwt, bcrypt and Node's crypto as parameters, and src/common/security.
--     Security/Sample: one instance, for examples.
--   Auth: src/auth/auth.service.ts and src/auth/strategies/jwt.strategy.ts. Auth/Tokens,
--     Auth/Sessions and Auth/Reset: its theorems.
--   Users: src/users/users.service.ts. Users/Blocking: its theorems.
--   Tenancy: the extension src/common/prisma/tenant.extension.ts and the guards in src/common/guards.
--     Tenancy/Guards: the guards in the order of src/app.module.ts. Tenancy/Isolation and
--     Tenancy/Admission: their theorems.
--   Stocktaking: src/catalog/stock/stock.service.ts, and the checks of the warehouse and the product
--     that it makes. Stocktaking/Counted: its theorems.
--   Notifications: src/notifications/notifications.service.ts. Notifications/Processor: the jobs of
--     src/notifications/notifications.processor.ts. Notifications/Delivery, Notifications/Reading,
--     Notifications/Breaches, Notifications/Contacts, Notifications/Later, Notifications/Overdue,
--     Notifications/Digest and Notifications/Once: their theorems.
--   Analytics: src/analytics/analytics.service.ts, the metrics from the query builder;
--     Analytics/Queries: those from SQL. Analytics/Metrics and Analytics/Totals: their theorems.
--   Scripts: src/scripts/scripts.service.ts. Scripts/Template: src/scripts/render-script-template.ts.
--     Scripts/Untouched, Scripts/Substitution and Scripts/Activation: their theorems.
--   Delivery: src/delivery-calc/delivery-calc.service.ts. Delivery/Requests: what is ordered there and
--     the warehouses that have it. Delivery/Cache and Delivery/Estimator:
--     src/delivery-calc/delivery-cache.service.ts and
--     src/delivery-calc/deepseek-delivery-estimator.service.ts. Delivery/Eligible, Delivery/Ordering,
--     Delivery/Building and Delivery/Quotes: their theorems. Delivery/Sample: a remote service and texts, for examples.
--   Catalog: src/catalog/categories, src/catalog/delivery-options and src/catalog/warehouses.
--     Catalog/Products: src/catalog/products/products.service.ts. Catalog/Listing and Catalog/Removal:
--     their theorems.
--   Mail: src/mailer/mail.processor.ts.
--   The Tests modules run examples.
--
-- How the code is read. A method is a function of the database that returns or throws; what was
-- written before a throw stays written, except in a transaction. A method runs without another
-- between its statements, except where a theorem says which reads came first. Ids are numbers,
-- compared for equality; instants are milliseconds; an absent field of a body and a null are not told
-- apart. A response is the row that it is made of, and a letter is its recipient, template and the id
-- that it is about. Each query of a tenant's service carries the tenant of the request. The id of a
-- created row comes from outside, and theorems that need it fresh say so. Loops are recursions on the
-- list that they run over: no fuel is used.
--
-- The variants of a delivery quote are built at once; they are modelled one after the other, and what
-- each finds in the cache is a parameter, which stands for every interleaving and for entries that
-- expire. Weights are hundredths of a kilogram there. A scheduled job runs tenant by tenant, and whether
-- the bot delivers to a chat is a parameter. In the metrics, minutes are milliseconds over 60 000 and
-- percentages are fractions. A script's text is a list of code units.
--
-- Not modelled: the controllers and pipes, the texts of letters and the transports, the configuration;
-- the schedule and the queue of the jobs, with its attempts; the prompt and the address of the
-- estimator; failures of Redis; constraint errors of the database other than a missing row and the
-- foreign key of deals to leads; overflow of 32-bit columns and of floating-point numbers; the
-- formatting of numbers and dates.
pub mod Prelude
pub mod Action
pub mod Schema
pub mod Platform
pub mod Session
pub mod Samples
pub mod Leads
pub mod Deals
pub mod Payouts
pub mod Security
pub mod Auth
pub mod Users
pub mod Tenancy
pub mod Stocktaking
pub mod Notifications
pub mod Analytics
pub mod Scripts
pub mod Delivery
pub mod Catalog
pub mod Mail
