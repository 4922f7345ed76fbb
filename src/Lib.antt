-- ===== src/Lib.antt =====
-- The market backend: a REST service in TypeScript on PostgreSQL, Redis and BullMQ, in which users
-- hold balances of tokens, place signed orders on trading pairs and trade with each other, and
-- issuers bring markets of real-world assets to life.
--
-- The parts and how they interact. The token service owns the balances: an available and a locked
-- part per user and token, in a table with a cache before it. The trading service checks a signed
-- order, locks its funds through the token service, inserts the order and queues a job. The matching
-- worker takes the job, matches the order against the opposing ones, and executes each trade: a row
-- for the trade, four balances through the token service, two orders, and then the jobs that settle
-- the trade elsewhere. The market service registers a market, has it approved, and queues the
-- deployment of its token; the trading service asks whether the market of a pair is active. The
-- decision on a market arrives by webhook, or is polled, from the entity permissions service. The
-- deployment worker takes the queued job, deploys the token's contract, sets the market to active and
-- creates its trading pair. The swap service locks the source amount of a swap and queues a job, whose
-- attempts call the bridge, settle the two balances, or give up and unlock. The settlement service
-- settles a trade on the chain. The wrapper service quotes wraps and locks what is wrapped.
-- The transaction manager records a transaction of a market, queues its job and tries it up to a number
-- of times. The market data service keeps the price range and the volume of a pair.
--
-- The files. Each models one source file or a part of it; its first lines name it.
--   Base           the shared helpers: tests on numbers, integers, lists, and actions on a state
--                  that return a value or throw (Base/Calls), with the error codes of
--                  marketBackend/src/lib/errors.ts
--   Token/Store    marketBackend/src/infra/database/repositories/tokenRepository.ts: `Ledger`, the
--                  tables and the queries on them, with what migration 002 demands of them: the
--                  CHECKs, the UNIQUE symbol, and the token that a balance or a
--                  compliance record refers to
--   Token/Service  marketBackend/src/services/tokenService.ts: one function per method of TokenService
--                  but getUserBalances, a plain query
--   Token/Balances, Token/Compliance, Token/Coherence   what is proved of it
--   Market/Types   marketBackend/src/types/market.ts
--   Market/Store   marketBackend/src/infra/database/repositories/marketRepository.ts and the two
--                  repositories beside it for assets and events, with the deployment queue
--   Market/Service marketBackend/src/services/marketService.ts: one function per method
--   Trading/Types  marketBackend/src/types/trading.ts
--   Trading/Store  marketBackend/src/infra/database/repositories/tradingRepository.ts: `State`, which
--                  has the ledger in it, the trading tables, Redis, the events and the queues; an
--                  order refers to its pair, and a trade to its pair and its two orders
--   Trading/Amounts, Trading/Settle, Trading/Worker, Trading/Matching
--                  marketBackend/src/infra/queue/matchingWorkerHandler.ts: the rounding of amounts,
--                  the four balance updates, executeTrade, and the loop and the job around it
--   Trading/Service
--                  marketBackend/src/services/tradingService.ts, with the nonces of
--                  marketBackend/src/lib/signature/nonceService.ts: submitOrder, cancelOrder and
--                  getOrderBook
--   Trading/Settlement
--                  marketBackend/src/services/settlementService.ts
--   Events/Store   marketBackend/src/infra/database/repositories/processedEventRepository.ts and
--                  handleEntityPermissionDecision of
--                  marketBackend/src/infra/eventBroker/marketEventBroker.ts
--   Events/Webhook marketBackend/src/controllers/webhookController.ts: the whole handler
--   Events/Polling marketBackend/src/services/eventListenerService.ts: one polled batch
--   Deployment/Store, Deployment/Worker
--                  marketBackend/src/infra/queue/tokenDeploymentHandler.ts with the repositories that
--                  it calls and marketBackend/src/services/usdcTokenService.ts
--   Swap/Types, Swap/Store
--                  marketBackend/src/types/swap.ts and
--                  marketBackend/src/infra/database/repositories/swapRepository.ts
--   Swap/Quote, Swap/Service, Swap/Worker
--                  marketBackend/src/services/swapService.ts: the quotes, the requests, and
--                  processSwapJob
--   Wrapper/Store, Wrapper/Service
--                  marketBackend/src/types/wrapper.ts and marketBackend/src/services/wrapperService.ts
--   Transaction/Store, Transaction/Manager
--                  marketBackend/src/infra/database/repositories/transactionRepository.ts and
--                  marketBackend/src/services/transactionManager.ts
--   Statistics/Service
--                  the statistics of a pair in marketBackend/src/services/marketDataService.ts
--   Tests          concrete runs
-- The children of a module are named for what they prove. A function keeps the name of the method
-- it models, in snake case; a long method is several functions, each of which is `from X on`.
--
-- How the code is modelled. A method is an action: it takes the state, returns a value or throws, and
-- returns the state as it left it. What was written before a throw stays written: the queries of
-- executeTrade run on the pool, so that the transaction that it opens on another connection undoes
-- none of them. Ids, symbols, addresses and signatures are numbers that are only compared. An amount
-- that a caller gives is an integer, of whatever sign; a column under a constraint that keeps it at 0
-- or more is a natural number, and the write that violates the constraint throws. No machine
-- arithmetic is involved: the source computes with bigint and NUMERIC(78, 0), whose bound of 78
-- digits is not modelled. The loops run over lists, so there is no fuel. The CHECK on the status of an
-- order is a parameter, `allowed`, since the migrations and the code disagree about it;
-- `migrated_status_check` is the one of the migrations.
--
-- Parameters for code that is not in the repository: whether a signature is the address's own, and
-- what Redis answers to ZRANGE, from the commands that were sent to it, or that it throws, and what
-- the entity permissions service, the bridge, the deployer of contracts and the Sapphire RPC answer, and
-- whether the Sapphire runtime can be had to encrypt call data. A call of the bridge is refused,
-- confirmed, or carried out with its answer lost.
-- The queue is no definition: what follows from repeated attempts is stated of runs of the handler
-- with attemptsMade = 0, 1, 2, …, as BullMQ counts them.
--
-- Not modelled: metadata, dates and display fields; failures of connections; the interleaving of
-- two requests within a method, but for the worker that enqueueTransaction meets; the time after
-- which Redis drops a book or the depth of a pair; the foreign keys
-- of market events, asset details, swaps and statistics. Of a balance that is cached, the
-- running out is a step of its own. Of the market data, the cached lists and candles, and all of
-- the reconciliation and the listing queries are not modelled; controllers, middlewares, clients
-- and wiring are input and output.
pub mod Base
pub mod Deployment
pub mod Events
pub mod Market
pub mod Statistics
pub mod Swap
pub mod Token
pub mod Trading
pub mod Transaction
pub mod Wrapper
pub mod Tests
