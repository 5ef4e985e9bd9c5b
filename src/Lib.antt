-- ===== src/Lib.antt =====
-- GoshopX, a shop of Go services: what its inventory, order, cart, payment, account, product, admin
-- and notification services compute.
--
-- The parts and how they interact. The cart service reserves goods with the inventory service for
-- every item it holds, the order service turns a checked-out cart into an order under a coupon or a
-- quote, and the payment service asks the gateway (VNPAY) for the amount of an order; the gateway's
-- callback settles the transaction, and its effects commit or release the reservations, update the
-- order and clear the cart. The account service signs the tokens by which the others know who asks,
-- the product service keeps the catalog that is sold, and the admin service projects the events of the
-- others into reports, and the notification service tells the accounts of them.
--   * Base: numbers with Go's wrap-around, texts, errors as values, the sessions of a database and
--     the operations of the object-relational mapper with their laws; Memory is an instance of them.
--   * Inventory (inventory/internal/repository.go, service.go, inventory/models): Availability for
--     the sums and the cleanup, Reserve for ReserveStock, Transition for transitionReservation,
--     Stocks for the levels, Service for the published events; proofs in Levels, Atomic and below
--     Transition.
--   * Order (order/internal/coupon.go, repository.go, service.go, order/models): Coupon for
--     CouponDiscount, Items for CheckoutItemsHash, Put for PutOrder and PutOrderWithCoupon, Quote for
--     PutOrderWithQuote, Queries for listings and CancelOrder, Service for the checks and events;
--     proofs in Atomic and below Coupon and Put.
--   * Cart (cart/internal/repository.go, service.go, cart/models): Repository for the keys in Redis,
--     Helpers for the lock and the shared parts, Items, Checkout, Proposal and Confirm for the
--     operations; proofs below Items and Proposal.
--   * Payment (payment/internal/service.go, repository.go, webhook.go, server.go,
--     payment/vnpay/client.go, payment/models): Gateway for the client, Tables for the repository,
--     Catalog for prices, Session for CreateCheckoutSession, Callback for HandleVNPAYIPN and the
--     webhook, Effects for what follows a settled payment; proofs below Gateway, Session, Callback
--     and Effects.
--   * Account (account/internal/service.go, repository.go, account/models, pkg/auth, pkg/middleware/auth.go):
--     Tokens for pkg/auth, Tables for the repository, Login, Reset and Manage for the operations; proofs
--     below each of them.
--   * Admin (admin/internal, admin/models): Apply for ApplyEvent, the quarantine and HandleMessage,
--     Service for the stored dashboard, Reporting for BuildDashboard; proofs in and below Once and below
--     Reporting.
--   * Product (product/internal/service.go, repository.go, dummyjson.go, product/models): Tables for the
--     indexes, Service for the operations, SampleData and Sample for the import; proofs below Service and Sample.
--   * Notification (notification/internal/service.go, repository.go, notification/models): Tables for the
--     repository, Copy for the texts, Service for CreateFromEvent; proofs in Unread, in Noted
--     and below Copy.
--   * Examples: concrete data to which the theorems apply.
--
-- Correspondence. A call is a function of a session (the committed tables, the open transaction, the
-- readings of the clock, the events handed to the producer) with a result or an error; the state
-- comes back after an error too. A statement outside a transaction commits by itself. Every int32
-- and int64 result that the code computes is wrapped; a time is a number of nanoseconds since Go's
-- zero time. Every loop goes through a list or through the three attempts, but for the import of
-- sample products, which goes from page to page on fuel: m + 1 pages are enough where no page states a
-- total above m, since every page that does not end the import adds a product to its count.
--
-- Parameters, which may do anything unless a theorem assumes a law: the mapper's statements (which
-- may fail at any call), the driver with its clock, Redis, Elasticsearch, the clients of other services,
-- floating point, SHA-256, HMAC-SHA-512, bcrypt, the signing of tokens, Google identities, JSON, URLs and
-- addresses, random bytes and UUIDs.
--
-- Not modelled: other calls that run between two statements of one call (row locks and isolation
-- levels), panics and cancelled contexts, `strings.ToUpper` outside ASCII, log lines, gRPC and HTTP
-- wiring, migrations, the loops that read Kafka, the consumer of product events, the cache of dashboards,
-- the composition of mails for SMTP, and the recommender and gateway services.
pub mod Base
pub mod Memory
pub mod Inventory
pub mod Order
pub mod Cart
pub mod Payment
pub mod Account
pub mod Admin
pub mod Product
pub mod Notification
pub mod Examples
