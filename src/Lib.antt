-- ===== src/Lib.antt =====
-- Verification of the backend of Mesyaf Market, a marketplace with delivery.
--
-- The program. Customers place orders with vendors. A vendor accepts or rejects an order and marks
-- it ready, which puts it into a batch of orders that one deliverer takes. A batch closes when it
-- is full, when its timer fires or when a sweep finds it overdue, and is then queued for the
-- assignment of a deliverer, who gets a job with one stop for each order. A sweep looks after
-- deliverers who went away and batches that nobody took. Every change is an event of a log, which
-- is projected to a timeline for each order and job, and replayed to clients that reconnect.
--
-- The files, and what they model:
--   Database/Schema      prisma/schema.prisma, the rows and enumerations
--   Database/World       the tables, what handlers send out, and actions that return or throw
--   Database/Prisma      the Prisma client: a parameter, and what is documented of it
--   Database/Cache       the keys and values in Redis, and its client: a parameter, with what is
--                        documented of it; RedisService is src/common/redis/redis.service.ts
--   Database/Sorted      lists of rows that are sorted, skipped and taken
--   Events               src/common/events/event-log.service.ts and the projections of
--                        src/common/timeline: recordEvent is record_event, project is project_order
--                        and project_job
--   Order                src/order/order.service.ts: Create has createOrder, Ready has
--                        vendorMarkReady and assignToBatch, Batching the tests on batches, Closing
--                        closeBatch and closeExpiredBatches
--   Delivery/Jobs        src/deliverer/deliverer-job.service.ts
--   Delivery/Assignment  src/deliverer/deliverer-assignment.service.ts
--   Delivery/Location    src/deliverer/deliverer-location-service.ts
--   Delivery/Recovery    src/common/decorators/recovery/deliverer-recovery.service.ts
--   Delivery/Profiles    src/deliverer/deliverer.service.ts
--   Delivery/Geo         the distance on the globe, of the order and assignment services
--   Vendor               src/vendor/vendor.service.ts, and in Admin src/admin/admin.service.ts
--   Session              src/common/websocket and the three gateways: Connection has
--                        handleConnection, Handlers the messages, the disconnections and
--                        src/users/delivery-job-subscription.service.ts
--   Products             src/product/product.service.ts: Catalog has the reads, Editing the creation,
--                        update and deletion, Media the images and tags, Ownership the checks and
--                        the invalidation of the cache, Filter the where-clauses
--   Users                src/users/users.service.ts: creation and reads
--   Auth                 src/auth/auth.service.ts and src/auth/jwt.strategy.ts
--   Throttler            src/common/throttler
--   Filters              src/common/filters
--   Http                 the controllers: Catalog has src/product, Shops src/vendor, Admin src/admin,
--                        Accounts src/users and src/auth, Deliveries src/order, src/deliverer and
--                        src/common/timeline; Guards has what stands before and after a handler,
--                        and Requests all the routes, with the one function `serve` for them
--   Seed                 prisma/seed.ts
--   Logger               src/common/logger/app-logger.service.ts, on a heap of objects
--   Access               the queries of src/common/timeline, src/common/guards/roles.guard.ts, and
--                        the change and deletion of a user in src/users/users.service.ts
--   Prelude, Database/Rows, Database/Rules, Database/Keeps, Sample    shared names, lists of rows,
--                        rules for actions, and the data of the examples
-- A method is the function of its name in snake case; a method's transaction and the branches of a
-- long method are functions of their own, with a comment that says which part they are.
--
-- The model. A handler is an action on a world: the tables, the clock, the messages that were sent
-- and queued, the positions that Redis holds, and the rest of Redis as a list of entries. An action
-- that throws keeps what it wrote, except in a transaction, which takes back what it wrote to the
-- tables. The Prisma client is a parameter:
-- a theorem holds for every client that does what the record Documented says, and such a client
-- exists (reference). The client of Redis is a parameter of the same kind (DocumentedRedis), and so
-- are bcrypt and JwtService. Floating-point arithmetic, JSON.stringify of a filter and the search
-- without case are parameters of which nothing is assumed, and a number of type Float is its bit
-- pattern.
--
-- Bounds. Every loop of the program runs over a list, and is a recursion on it, but the traversal of
-- objects by the logger: it takes fuel, one more than there are objects, which is enough since it
-- enters no object twice (Logger/Total).
-- Ids and times are natural numbers without a bound; the code does no arithmetic on ids, and the
-- times in milliseconds stay far below 2 ^ 53. A quantity, a fee, a page and a limit are integers,
-- which may be below zero.
--
-- What the model leaves out. Handlers run one after another, so the advisory lock and the row
-- locks do nothing; the clock stands still while a handler runs; a query without an order gives
-- the rows in the order of the table; of the foreign keys those of a placed order are checked and
-- no other; a transaction that throws gives the ids it used back; Redis is always reachable, so
-- that the calls after a commit that drop cached keys cannot fail, while in the code such a
-- failure makes the request fail; null in place of a missing key is not there, nor are integers
-- beyond the 32 bits of a column; a body or a parameter of a route is one that its validation lets
-- through; the calls of the logger, the texts of errors, the rooms of sockets but those of jobs,
-- and the retries of queues are not there. Not modelled: the limits of requests for each route,
-- the modules and the start of the program, and the health check.
pub mod Access
pub mod Auth
pub mod Database
pub mod Delivery
pub mod Events
pub mod Filters
pub mod Http
pub mod Logger
pub mod Order
pub mod Prelude
pub mod Products
pub mod Sample
pub mod Seed
pub mod Session
pub mod Throttler
pub mod Users
pub mod Vendor
