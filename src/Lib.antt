-- ===== src/Lib.antt =====
-- Models of the Cadencia A2A platform: the trade of two enterprises, from the request for quotation
-- over the agents' negotiation to an escrow on Algorand, its audit log and the treasury behind it.
--
-- The parts, and how they interact. A buyer's request (Rfq) is parsed and matched (Market); the match opens a
-- negotiation session (Session), in which the engine (Engine) takes the turns of the agents under its
-- guardrails, and whose agreement opens an escrow (Escrow). The settlement service
-- calls the smart contract (Contract) and records each accepted call in the escrow aggregate; Mirror
-- is about the two together. At the release the session's entries are hashed into a Merkle root
-- (Merkle), which goes on chain as a note, and every event is appended to a hash-chained log (Audit).
-- Treasury keeps the balances of an enterprise, Enterprise its KYC status, Keys its API keys, Breaker guards
-- the calls of outside services, Limiter those of an enterprise, and Tax
-- makes the tax records of a released escrow.
--
-- Files and code (paths from the repository's root):
--   Prelude, Prelude/*    Boolean tests, lists, Python strings, signed integers over the native ℕ
--   Errors                backend/src/shared/domain/exceptions.py
--   Escrow/Defs           backend/src/settlement/domain/escrow.py: `Escrow`, its eight lifecycle
--                         methods, each a function to an event or exception and the aggregate as left
--   Contract/Defs         backend/contracts/escrow_contract.py: `initialize` and the five ABI methods;
--                         a failed assertion is `none`, and `run` keeps what was taken in and paid out
--   Mirror                the two of them in step
--   Settlement            `SettlementService` of backend/src/settlement/application/services.py over one
--                         escrow: Values (domain/value_objects.py), Gateway (what
--                         infrastructure/algorand_gateway.py does on the chain), Pricing, Roots, Defs,
--                         Service (the nine commands), Pera (what a wallet signed), Requests (them as data)
--   Session/Defs, Methods, Queries
--                         backend/src/negotiation/domain/session.py, offer.py, events.py, policies.py;
--                         Session/Commands makes the methods data, for sequences of calls
--   Engine/Guardrails     backend/src/negotiation/domain/guardrails.py
--   Engine/Defs, Service  the fourth layer of `process_turn` of
--                         backend/src/negotiation/infrastructure/neutral_engine.py, and `run_agent_turn`
--                         with its handlers of
--                         backend/src/negotiation/application/services.py
--   Engine/Override       `apply_human_override` and `terminate_session` of the same service
--   Merkle/Defs           backend/src/shared/infrastructure/merkle_service.py
--   Audit/Defs            backend/src/compliance/domain/audit_log.py, value_objects.py (`HashValue`),
--                         `append_audit_event` of backend/src/compliance/application/services.py, and
--                         `get_latest` of backend/src/compliance/infrastructure/repositories.py
--   Tax/Values, Decimals, Records, Service
--                         backend/src/compliance/domain/value_objects.py, gst_record.py, fema_record.py,
--                         and `generate_compliance_records` of backend/src/compliance/application/services.py
--   Breaker/Defs          backend/src/shared/infrastructure/circuit_breaker.py
--   Limiter/Defs          backend/src/shared/infrastructure/rate_limiter.py
--   Treasury/Defs, Positions, Service
--                         backend/src/treasury/domain/liquidity_pool.py, fx_position.py, and the commands of
--                         backend/src/treasury/application/services.py
--   Rfq/Defs, Digits      backend/src/marketplace/domain/rfq.py, value_objects.py
--   Market/Defs           backend/src/marketplace/domain/match.py, and the background task and
--                         `confirm_rfq` of backend/src/marketplace/application/services.py
--   Enterprise/Defs       backend/src/identity/domain/enterprise.py
--   Keys/Defs             the API keys of backend/src/identity: application/services.py,
--                         infrastructure/repositories.py, api/dependencies.py
-- The other files of a folder are its proofs, and its Tests the examples and runs.
--
-- How the code is modelled. UUIDs, times and accounts are natural numbers, a string is the list of its
-- code points, a JSON value the text that is written of it. Each reading of the clock is an argument
-- (`now`, `later`). A Decimal is an integer in its smallest unit: Python's decimals are exact to 28
-- digits, which the amounts of the code do not reach. A method that raises gives `err` and the object
-- as it is left at that time. The amounts of tax records, which are rounded, are decimals with their
-- number of places; their texts are ASCII. Results and orders of writes follow the code's own order.
--
-- Parameters. `sha256` is the hexadecimal digest of hashlib; where a theorem needs its form, the
-- hypothesis is named (`IsHexDigest`, `HasWidth`), and no theorem supposes that it has no collisions:
-- a theorem that says what a hash binds gives the collision otherwise. `within gap price` is the
-- comparison of a quotient of decimals, as a float, with the tolerance; `divide` the division of
-- decimals, `gain` a product with a quotient of them, `truncate` Python's `int`; the record `Python` holds what the engine computes on floats, and `Advice` the
-- outputs of the valuation, the strategy and the language model; `hmac` the HMAC-SHA256 of API keys; `paid` the AVM's
-- verdict on the inner payment; `Sent` says how a transaction of the gateway fared; `Outside` is the digest,
-- Python's `str` and its reading of hexadecimal numbers; the payload of an audit entry is the text that `json.dumps` made. The keys of the breaker in Redis are optional values, with GET, SET, INCR and
-- DELETE as documented, and without two processes at once.
--
-- Bounds and fuel. The `while` loops of the Merkle service run on fuel, the number of entries: a layer
-- of more than one hash is followed by a shorter one, so it does not run out. All other loops are structural.
--
-- Tables. A row is what the repositories write and read of it: a match has no status, a request read again
-- no window, and an exchange rate what `column` leaves of it; `checked` says whether the deployed table lets
-- APPROVED be written. Other limits of the columns, such as the 100 characters of an event type, the unique
-- hash of an audit entry and the one pool of an enterprise, are supposed to be met.
--
-- Not modelled: the API routers, the other repositories and their tables, the adapters of outside services
-- (Algorand SDK, on-ramp, KYC, storage, language models), the agents' strategy, valuation and opponent
-- models, a turn that ends because the language model's retries are exhausted (it changes no session),
-- registration and login, the matchmakers, the front end, and the deployment.
pub mod Prelude
pub mod Errors
pub mod Escrow
pub mod Contract
pub mod Mirror
pub mod Session
pub mod Merkle
pub mod Audit
pub mod Breaker
pub mod Keys
pub mod Limiter
pub mod Tax
pub mod Treasury
pub mod Rfq
pub mod Market
pub mod Enterprise
pub mod Engine
pub mod Settlement
