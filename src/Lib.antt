-- ===== src/Lib.antt =====
-- Money across borders: remittances between accounts in several currencies, over wallets and a
-- double-entry ledger.
--
-- The program. A signup provisions a user and an account; an account opens wallets, one for each
-- currency; a KYC submission verifies it. SendRemittanceUseCase moves money from the sender's
-- wallet to the recipient's, through the wallets of the treasury where the currencies differ: it
-- asks the compliance checker, charges the fee, posts balanced legs with the ledger service, saves
-- the wallets and the remittance, and writes an event to the outbox, all in one unit of work. The
-- use cases stand behind IdempotentDecorator, which claims the key of a request before it runs. The
-- relays carry the events of the outbox to RabbitMQ and Kafka, and the consumer of account.created
-- handles what RabbitMQ delivers, with retries and a dead-letter queue.
--
-- Which file models what. Paths of the source are from the root of the repository.
--   Base         names from the libraries, integers, lists, texts, and searches and saves in
--                arrays.
--   Domain       src/domain. Errors: shared/errors.ts. Currency, Money: shared/value-objects.
--                Exchange: exchange/value-objects. Wallet: wallet/entities/wallet.ts, `credit` and
--                `debit`. Statuses and Entities: the status classes and the entities without
--                behaviour. Ledger: the check `assertBalancedPerCurrency` of
--                ledger/services/ledger-service.ts; Ledger/Balance compares it with the net of the
--                legs. Numbers: the numbers of JavaScript that are not integers.
--   Store        the tables as one record, World, and the repositories of
--                src/infra/persistence/in-memory on it, one function for each method; Actions has
--                the monad of code that reads and writes the tables and throws, with the units of
--                work (postgres-unit-of-work.ts rolls the tables back, in-memory-unit-of-work.ts
--                does not); Outbox has the `add` of the outbox repository.
--   Application  src/application. LedgerService: `postBalancedEntries`. SendRemittance:
--                remittance/uses-cases/send-remittance-use-case.ts, of which `prepare` is
--                everything up to the debit of the sender, `settle` the legs with the other
--                wallets, and Execute the rest; the children after Execute prove, each, what its
--                name says. Idempotency: shared/idempotency/idempotent-decorator.ts over the port,
--                with the in-memory repository in InMemory, the Redis and Postgres repositories in
--                Redis and Postgres, and the interleavings of racing requests in Race. Accounts:
--                CreateAccountUseCase and LoginUseCase. OpenWallet and SubmitKyc: the use cases of
--                these names.
--   Infra        src/infra. Pricing, Compliance and FxRates: the fee, the checker and the mock
--                rates that the use case calls. Relay: one tick of rabbitmq-outbox-relay.ts and
--                kafka-outbox-relay.ts. Retry: resilience/retry-classifier.ts. Resilience:
--                resilience/resilient-http-client.ts in Client, with backoff.ts and
--                resilience-config.ts in Backoff and errors.ts in Errors. HttpRates:
--                exchange/http-exchange-rate-provider.ts. FakeFxServer: exchange/fake-fx-server.ts.
--                TreasurySeed: persistence/in-memory/seed-treasury-wallets.ts. Consumer:
--                account-created-consumer.ts with rabbitmq-retry-topology.ts. Seed: the pipeline
--                src/infra/seed: Rng is rng/deterministic-rng.ts; Dates, Customers, Kyc, Wallets,
--                Funding, Contention and Demo are the files of generators of these names, Drafts,
--                Completed and Remittances are generators/remittance-generator.ts, Ledger is
--                generators/ledger-math.ts with the changes of balances, and Dataset is
--                generate-dataset.ts; Config is config/seed-config.ts; Args is cli/parse-args.ts;
--                Batches is `chunk` of persistence/batch-writer.ts; Database has the tables,
--                Database/Unnest and Database/Writer the inserts of that file in their transaction,
--                Database/Setup persistence/seed-database.ts; Checks is validation; RunSeed is
--                run-seed.ts. Ledger/Posted has two checks of validation/financial-invariants.ts as
--                sums over rows; Ledger/Traces has the rules by which the children named Traced
--                follow each generator.
--   Interfaces   src/interfaces/http/controllers: what a controller makes of a result or an error,
--                and `handle` of the controllers before a decorated use case; `from` of the input
--                class, which calls zod, is a result that is given to it.
--   Main         src/main: Shutdown is graceful-shutdown.ts and Readiness readiness.ts.
--   Tests        runs at concrete inputs, and the theorems applied there.
--
-- How the model stands to the code. Amounts are exact integers: the code keeps them in JavaScript
-- numbers, which are exact up to 2 ^ 53. A rate is a finite float behind Floats, whose laws are
-- that a rounded product of a number of zero or more with a positive one is zero or more, and that
-- a literal of at most fifteen digits, and a quotient of two, is positive where it is not zero. The
-- ids of the uuid package and the readings of the clock are two sequences in Environment, of which
-- World counts how many have been drawn; all id classes draw from one. Theorems that need a new id
-- say so. Ids are texts, dates are numbers of milliseconds. Which saves of a remittance, and
-- whether the save of an event, the database refuses is a part of Environment; the other saves of
-- the use cases do not throw. A use case runs alone on the tables: what two concurrent transactions
-- see of each other is left to the isolation of Postgres and not modelled, but for the races on an
-- idempotency key. The zod schemas of the inputs are not modelled: the theorems hold for every
-- input record. The seed pipeline runs on a state with the word of the random generator and the
-- wallets with their balances, and throws. A wallet object that the code shares between its maps is
-- the row of its id in that state, so that the ids are taken to be different; it is read again
-- wherever the code reads it. Its floats have sums, floors and comparisons as well, behind
-- Arithmetic, with two laws on the fractions that the generator draws; `setHours`, which depends on
-- the zone of the machine, and the hash of the password are parameters. The writer of the seed
-- pipeline changes lists of rows, as its SQL does, under a parameter that says which statements the
-- database refuses, by their number in the session; a rollback restores the tables of its start.
-- The HTTP client has fetch, and the policies of the cockatiel package for retries, timeouts and
-- the circuit breaker, as parameters with what their documents promise; its settings are natural
-- numbers. A readiness check that settles at the very moment of its timeout is in time. The double
-- nearest to a numeral is a parameter of the parser of arguments. The shutdown is a process to
-- which signals, promises and timers happen one by one, in any order. The output classes print what
-- the modelled functions return. `toUpperCase` is modelled at the characters whose upper case is
-- one ASCII letter. The loops run over lists and end with them, or over the turns that are left; of
-- the functions on fuel, `chunk_from` of Infra/Seed/Batches has a turn for each item, which its
-- theorem shows to be enough, `print_digits` of Infra/Seed/Names a turn for each of the 16 digits
-- of a safe integer, and `deliver` of Infra/Consumer/Attempts counts deliveries, with a theorem
-- that gives the fuel that is enough.
--
-- Not modelled: HTTP routes, middlewares and the search controller, the search index and its
-- consumer, the other Postgres adapters, Mongo and Elasticsearch, the text of the report and of the
-- help of the seed pipeline, observability, connections and start-up: they are calls of packages,
-- or input and output. Nor is a target of wallets or remittances that is no integer.
pub mod Base
pub mod Domain
pub mod Store
pub mod Application
pub mod Infra
pub mod Interfaces
pub mod Main
mod Tests
