-- ===== src/Lib.antt =====
-- An e-commerce REST API in TypeScript on Express and MongoDB: carts, checkout with stock
-- reservations and coupons, orders, payments by webhook, refunds and shipments. Paths are from the
-- repository's root.
--
-- Parts and files:
--   Base          names and lemmas that all files share
--   Domain        src/types/domain.ts and src/models: the persisted shapes
--   Errors        src/shared/errors/AppError.ts, src/services/CustomeErrorHandler.ts; Errors/Handler
--                 is src/middlewares/errorHandler.ts
--   Mongo         the database as a parameter: a record of operations per collection, and IsMongo,
--                 what the server documents of them; Mongo/Reference is an executable server that
--                 meets it, and Mongo/Laws carries every law from it to all others
--   Money         src/utils/money.ts
--   StateMachine  src/services/orderStateMachine.ts and paymentStateMachine.ts
--   Coupon        src/services/couponService.ts
--   Events        src/infra/events/eventBus.ts (recordEvent, publishEvent)
--   Inventory     src/services/inventoryService.ts
--   Checkout      src/services/OrderService.ts (executeCheckout, compensate)
--   Orders        src/services/OrderService.ts (show, cancel, requestRefund)
--   Payments      src/services/PaymentService.ts, src/repositories/PaymentRepository.ts,
--                 src/utils/webhook.ts
--   Locks         src/infra/locks/distributedLock.ts
--   Streams       src/infra/sse/streamLimiter.ts
--   Shipments     src/controllers/shipmentController.ts
--   Carts         src/services/CartService.ts, src/repositories/CartRepository.ts
--   Idempotency   src/middlewares/idempotency.ts, src/models/idempotencyKey.ts
--   Access        src/middlewares: auth.ts, authorize.ts, stepUpAuth.ts, apiKeyAuth.ts
--   Sellers       src/controllers/sellerController.ts
--   Transactions  src/infrastructure/database/transaction.ts (runInTransaction), and its use in
--                 OrderService.checkout; definitions only
--   Pagination    src/utils/pagination.ts (buildPagination), and OrderService.list
--   Sessions      src/services/securityService.ts (signals, sessions),
--                 src/repositories/AuthRepository.ts; its collections are the record Store
--   Tokens        src/services/AuthService.ts (token pairs, startSession)
--   Auth          src/services/AuthService.ts (the rest) and tenantPolicy.ts
--   Durations     src/utils/duration.ts
--   Audit         src/utils/auditLogger.ts (the hash chain)
--   Cache         src/utils/cache.ts
--   Catalog       src/services/ProductService.ts, src/repositories/ProductRepository.ts,
--                 src/utils/fieldPolicy.ts
--   Sanitize      src/middlewares/sanitizeInput.ts and sanitizeNoSql.ts
--   Ssrf          src/utils/ssrf.ts
--   Metrics       src/observability/metrics.ts
--   Platform      src/services/securityService.ts (signed URLs, API keys) and the handlers of
--                 src/controllers/platformController.ts around them
--   Sagas         what follows a checkout: OrderService.afterCheckout, src/utils/queue.ts,
--                 src/infra/saga/sagaOrchestrator.ts, src/services/notificationService.ts
--   Reviews       src/controllers/reviewController.ts and wishlistController.ts
--   Tenants       src/controllers/tenantController.ts
--   Guards        src/utils/cors.ts, src/infra/serviceClient.ts (createServiceToken), and of
--                 src/middlewares: adminNetworkPolicy.ts, tenantContext.ts, serviceAuth.ts,
--                 preventParameterPollution.ts
--   Frontend      the web client, frontend/src/app/core: Session is auth/auth.service.ts and
--                 auth/token-storage.ts, Network its requests and answers in any order,
--                 Interceptors the directory interceptors with http/api-error.ts, and
--                 RecentlyViewed catalog/recently-viewed.store.ts
--   Sample        a small database for the runs and witnesses
--
-- A function of the source takes the database and returns its result with the database after it;
-- names are the source's in snake_case (releaseOrderReservations is release_order_reservations). A
-- body that branches on what a call returned is split at the branch, and the comment on a helper
-- says which part it is. In Checkout any database call may throw: an argument says which do, and
-- the undo closures of the code are data (Undo) that compensate runs, newest first. Checkout,
-- inventory, payments and orders meet in the reservations: stock moves to a reservation at checkout
-- and back when a cancellation, a failed payment or the expiry sweep releases it.
--
-- In Frontend a method that waits for the server is split at the answer, and a step relation lets
-- calls and answers come in any order; the server's new tokens are assumed never to repeat.
--
-- Assumptions: on the server one call runs at a time, so nobody else writes between its database
-- calls, but in Audit, where other processes append between an entry's reading and writing; a
-- call reads the clock once. Ids and dates are natural numbers. An amount is not negative, has at
-- most eight decimals and is below ten million, so that `toCents`, whose `toFixed(6)` removes the
-- error of the double product, gives what exact decimals give; `percentOf` has no such step and is
-- modelled in doubles, rounded to 53 bits after each operation. Recursion is on lists and texts, but
-- for the loop that evicts from the cache, whose fuel is the number of entries, each turn
-- removing one, the audit trail's attempts, of which the code has five, and the binary places of a
-- double, at most the 1074 that the smallest one has.
--
-- Not modelled: HTTP, validation (zod), timers, logs and rate limits, which the modelled services
-- only call or are called by; roundMoney, whose argument is any double; the web client's pages and
-- components; analytics, listings, search and recommendations, which only read.
pub mod Audit
pub mod Auth
pub mod Base
pub mod Domain
pub mod Durations
pub mod Errors
pub mod Mongo
pub mod Metrics
pub mod Money
pub mod Ssrf
pub mod StateMachine
pub mod Coupon
pub mod Events
pub mod Frontend
pub mod Guards
pub mod Inventory
pub mod Catalog
pub mod Checkout
pub mod Orders
pub mod Payments
pub mod Locks
pub mod Streams
pub mod Sessions
pub mod Shipments
pub mod Cache
pub mod Carts
pub mod Idempotency
pub mod Access
pub mod Sanitize
pub mod Sellers
pub mod Tenants
pub mod Tokens
pub mod Transactions
pub mod Pagination
pub mod Platform
pub mod Reviews
pub mod Sagas
pub mod Sample
