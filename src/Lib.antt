-- ===== src/Lib.antt =====
-- A model of the back end of a shop with wallets and flash sales (NestJS, PostgreSQL by Prisma,
-- Redis, BullMQ), and theorems about it.
--
-- The parts of the program and how they interact. A request passes the correlation-id middleware
-- (src/common/middleware) and the guards (src/auth/guards, src/auth/strategies), and reaches, by a
-- controller and its rules on the body, one of three services: `AuthService`
-- (src/auth/auth.service.ts) makes accounts and sessions, `WalletService`
-- (src/modules/wallet/wallet.service.ts) moves money, and `FlashSaleService`
-- (src/modules/flash-sale/flash-sale.service.ts) sells the units of an event. `register` makes the
-- wallet by `provisionWallet` in its own transaction; `purchase` charges the wallet by
-- `purchaseDeduct` between the reservation of a unit and the writing of the order, and then puts a
-- job into the queue, which the worker in src/modules/notifications takes. What a service throws,
-- the exception filter (src/common/filters) turns into the reply.
--
-- Which file models which part:
--   Schema        prisma/schema.prisma: the rows of the tables and their unique keys
--   World         the state of a request: the data base, Redis, the queue, the clock, the stream
--                 of UUIDs, the row locks taken; results, exceptions, transactions
--   World/Ensures reasoning about actions
--   Redis         GET, SET with EX, DEL and KEYS
--   Wallet        `deposit`, `purchaseDeduct`, `transfer`; Wallet/Reads `getMe` and
--                 `verifyInvariant`; Wallet/Provision `provisionWallet`; Wallet/Queries the reads,
--                 writes and locks of single rows
--   FlashSale     `createEvent`, `getEvent`, `purchase` and its private methods;
--                 FlashSale/Queries the statements on single rows; FlashSale/Interleaving
--                 concurrent purchases, statement by statement
--   Auth          `register`, `login`, `refresh`, `logout` and their private methods; Auth/Ttl
--                 src/auth/utils/ttl.util.ts
--   Guards        `JwtStrategy.validate`, `RolesGuard.canActivate`, `BullBoardAdminMiddleware.use`
--   Http          `CorrelationIdMiddleware.use`, `HttpExceptionFilter.catch`
--   Notifications `OrderNotificationProcessor`
--   Validators    `IsNotPastDate`, `IsAfterDate`
--   Health        `HealthController.check`
--   Config        src/config/env.validation.ts and src/config/app-config.ts
--   History       the states that sequences of calls of the services lead to
--   Bank          the promise about money: balances by wallet id, credited, debited and moved
--   Wallet/Locking transactions that lock wallet rows at the same time, and their schedules
--   Api           a request from its guards to its reply: Api/Routes the decorators of the
--                 controllers' methods, Api/Bodies the rules of the DTOs under the ValidationPipe of
--                 src/main.ts, Api/Handlers the methods of the controllers; `serve` puts the
--                 throttler, `JwtAuthGuard`, `RolesGuard`, the handler and the filter together
-- The other files hold lemmas, theorems about the part that their folder is named for, and, under
-- Tests, runs and instances. A method is an action: a function from the state to a result and the
-- next state, written with the statements of the source in their order; an exception is a value of
-- the result. `$transaction` puts the data base back when its body throws. An operation of the model
-- has the name of the method, in snake case.
--
-- Numbers. An amount, DECIMAL(18,2), is an integer number of hundredths, and a write that is 10^18
-- or more in absolute value fails as the column does; INTEGER columns fail from 2^31 on. Times are
-- milliseconds. A text is the list of its code units. Nothing runs on fuel: the one loop,
-- `pollForExistingOrder`, recurs on the attempts that are left, which are five; a schedule of locks
-- recurs on its list.
--
-- What comes from outside is a parameter: decimal.js and JSON (`Runtime`), bcrypt and jsonwebtoken
-- (`Crypto`), `Date` (`parse`), JavaScript's readers of numbers (`Numbers`), what other requests do
-- while a purchase sleeps and whether BullMQ takes a job (`Environment`), the readers of
-- class-validator, passport and the throttler (`Edge`), which row locks PostgreSQL grants
-- (`RowLocks`), the text of a log line.
--
-- Not modelled: the wiring of the modules, the options of the logger but `genReqId`, the start of
-- the program, and the decorators for Swagger; the retries of BullMQ, the verification of tokens by
-- passport and the counting of the throttler; PostgreSQL's interleaving of transactions, but for
-- concurrent purchases, row locks and the states that the theorems on races start from; the check
-- of the foreign keys, which the code meets. `KEYS` takes the user's id for its own characters, as is
-- right for a UUID. Failures of the connections are not modelled, nor that a number of JavaScript is
-- a double. prisma/seed.ts and the tests are sample data and clients of a running service.
pub mod Prelude
pub mod Schema
pub mod World
pub mod Redis
pub mod Wallet
pub mod Auth
pub mod Guards
pub mod Http
pub mod Notifications
pub mod Health
pub mod Validators
pub mod Config
pub mod FlashSale
pub mod History
pub mod Bank
pub mod Api
pub mod Tests
