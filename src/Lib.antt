-- ===== src/Lib.antt =====
-- A model of the notification API (app/) and of what makes its parts correct.
--
-- The program takes a request for an SMS or a push notification, authenticates the calling service,
-- counts the request against rate limits in Redis, checks it (an SMS against its template), stores a
-- notification in the database, and sends the tasks that deliver it to a queue of SQS. Version 3 of
-- the API registers devices with Amazon SNS. The application starts the database, Redis and the
-- telemetry, and gives them back when it ends.
--
-- Code that raises and has effects is a function from a world to a value or an exception and the
-- world after it (Effects). The world is a parameter: the database, Redis, SQS, the caches, the clock
-- and the source of UUIDs act on it, and other programs may change it between two calls, since
-- nothing is assumed of what is not written here. Each library is a record of its operations, some
-- with what is documented of them; each such record has an instance in a Samples or Tests module, on
-- which the definitions are run.
--
-- The parts, and the files that model them:
--   * Constants: app/constants.py. Effects: the exceptions of app/exceptions.py and of app/auth.py.
--   * Retry: `db_retry`, `client_retry` and `redis_retry`, and app/utils.py, over tenacity
--     (Retry.Outcomes: what a call under each comes to). `db_retry` stands over static methods, which
--     tenacity takes for plain functions: their coroutines run once.
--   * Cache: async_lru, which app/auth.py and app/legacy put before their lookups.
--   * Dao: app/legacy/dao. Rows has the rows and the statements, Lookups the methods that read,
--     Writes those that write, Serializers how personalisation is stored, Once and Laws what the
--     methods come to.
--   * Auth: app/auth.py. Secrets decodes the secret of a key, Tokens checks a token, Service is
--     `verify_service_token` with its lookups, Bearer the two dependencies, TokenErrors the classes of
--     exceptions. Timeliness, Keys, Admin, Authentication and Accepted hold the theorems.
--   * Redis: app/clients/redis_client.py. Server is what the program sees of Redis, Client is
--     `RedisClientManager`, Counting is about one client, Phases and Interleaving about several at
--     once, Expiry about a counter that expires in between, Answers about a Redis that never fails.
--   * Limits: app/limits.py. Strategies, Limiter (`RateLimiter` and its factories), and Laws,
--     Factories, Keys and Admissions (the requests of many callers) about them.
--   * Sms: app/legacy/v2/notifications. Identifiers, Requests, Tasks, Fields and Templates model
--     what a request is checked for and which tasks it has, Handler the endpoint; Patterns, Chains,
--     Scanning, Valid, Personalising, Suitable, Delivery, Endpoint and Accepted hold the theorems.
--     Push, Emails and Vanity are the push endpoint, the e-mail request and the check of a telephone
--     number, Unsent, PlainNumbers, Marks, Replacing and Filling about them.
--     Outbound and Sending go from an accepted SMS request to the queue.
--   * Sqs: app/legacy/clients/sqs.py. Envelopes makes the messages, Producer sends them; Order, Sent,
--     Failures and Delivered hold the theorems.
--   * Routes: app/routers.py, the responses to failed requests (`TimedAPIRoute` is in V3.Endpoints).
--   * Providers: app/providers. Schemas has the models, Sns the calls of Amazon SNS, Base what a
--     provider inherits, Laws and Faults what they come to.
--   * V3: app/v3 and app/clients/va_profile.py. Endpoints has the handlers, Parts the part of an ARN
--     that they answer with, Devices what registering a device comes to.
--   * State: app/state.py. Db: app/db; Uris makes the addresses, Sessions the engines and sessions.
--   * Start: app/main.py and app/telemetry.py. Lifespan is `lifespan`, Legacy the routes of main.py;
--     Ready is about the start, Release about the end.
--   * Application: how app/main.py, app/v3/__init__.py and app/legacy/v2/notifications/rest.py put the
--     application together. Routers has the routers, Create `create_app` and the table of routes that
--     comes of it, Guards what the dependencies of a route ask for, Endpoints the SMS function among
--     the routes, Responses and Answers what a route answers. What FastAPI finds wrong with a
--     request's body and fields is an argument (`Reading`).
--   * Logging: app/logging/logging_config.py. Levels has the sinks and `InterceptHandler.emit`,
--     Loggers `make_logger`, Hex the trace identifiers, Extra what a line carries; Frames, Routing and
--     Unknown hold theorems.
--   * Prelude: tests on numbers, lists, texts and integers that the parts share.
--
-- How they meet: `post_sms` (Sms.Handler) chains `jwt_bearer` (Auth.Bearer) and two limiters
-- (`enforce` of Limits.Limiter, which calls `consume_rate_limit_token` of Redis.Client) before
-- `sms_post`. The context that the authentication fills is part of the state (`State` of
-- Auth.Service); the limiters and the handler read it. The handler returns its response with the
-- tasks that run after it; `enqueue_notification_tasks` (Sms.Outbound) hands those to `enqueue_message`
-- (Sqs.Producer). `serve` and `respond` (Application) run a function as one of the routes that
-- `create_app` has made, behind the dependencies and in the class of its router.
--
-- `post_push` (Sms.Push) has the same dependencies; its task would call `send_notification`
-- (Providers.Sns). The handlers of V3 stand behind `jwt_bearer_admin` and call `register_device`
-- (Providers.Sns) of the provider in the application's state, which `lifespan` (Start.Lifespan)
-- clears when it ends, with `close_db` (Db.Sessions) and `close` (Redis.Client).
--
-- Bounds: integers of Python are unbounded, and those that may be negative are the integers of
-- Prelude.Int. Loops go over lists or texts, and the number of attempts of a retried call is that of
-- its decorator. Only the digits of a number (Logging.Hex) are made with fuel, one more than the
-- number, which is more than its digits.
--
-- Not modelled: the conversions of Pydantic and FastAPI (the functions get a
-- request whose fields were read, and what is wrong with another is an argument of `respond`;
-- telephone numbers are parsed by a library), and the models of responses that no route returns; the
-- texts of log lines; and scripts/create_mkdoc_files.py, which writes the pages of the documentation
-- and which no part of the application uses.
pub mod Prelude
pub mod Effects
pub mod Constants
pub mod Retry
pub mod Cache
pub mod Dao
pub mod Auth
pub mod Redis
pub mod Limits
pub mod Sms
pub mod Sqs
pub mod Routes
pub mod Providers
pub mod State
pub mod Db
pub mod Start
pub mod Logging
pub mod V3
pub mod Application
