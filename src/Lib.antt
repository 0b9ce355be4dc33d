-- ===== src/Lib.antt =====
-- CPyQ is a server for sessions, tokens and shared resources, with an HTTP and a WebSocket API. Its
-- parts, and the files here that model them:
--
-- * Ratelimit (Common/utils.py, check_ratelimit): a sliding window over a list of times that is
--   changed in place. Ratelimit/Window follows a sequence of calls.
-- * Access (Common/permissions.py, team.py, company.py, user.py): whether a user may act on another
--   user's resources. Access/Decision describes when, apart from the code; Access/Compare and
--   Access/Grants are its two halves, and Access/Exact is about permissions of exactly the scope
--   that is asked for.
-- * Handshake (Common/WebSocket/handshake_ctx.py): the state of a handshake and its future.
-- * Token (Common/token.py): the lifetime of a token.
-- * Server (Server/Content/server.py, Common/session.py): the state that the services share. Session,
--   Resource and Token objects are changed in place and reached from several places, so they lie on
--   heaps: a reference is a number. Server/Action is a stretch of a handler without an `await`: it
--   takes the state and returns the new state beside a result or an HTTP error.
-- * Resource (Server/Content/resource.py): lock and unlock. Resource/Linked runs any sequence of them;
--   Resource/Copies is about two Session objects with one id.
-- * Auth (Server/Content/base_service.py, auth_service.py): the table of keys, login, refresh, logout
--   and, in Auth/Sweep, the periodic task. Auth/Keys has the invariant of the table.
-- * Messages (Common/WebSocket/messages.py, subprotocol.py, Payloads): frames, events, close codes.
-- * Proxy (Common/WebSocket/response.py): one end of a WebSocket. Its tasks run in stretches between two
--   `await`s; Proxy/Steps is any sequence of such stretches, Proxy/Shutdown and Proxy/Progress how the
--   proxy closes, Proxy/Calm and Proxy/WoundDown what is left of its tasks then, and Proxy/Acks and
--   Proxy/AckRuns which acknowledgements it owes.
-- * Guards (Server/Content/decorators.py): rate limits for each source, and who may call a handler.
-- * ResourceService (Server/Content/resource_service.py): loading, acquiring, viewing and unloading
--   resources. Its handlers run behind the guards, on the state of Server, and lock with Resource.
-- * HttpClient (Common/http_client.py): the retry loop of a request, on fuel of one more than
--   `max_retries`, which no request uses up; Python's floats are a record of operations.
-- * Schedule (Server/Content/schedule.py): the autopilots, and the queue of tasks for them, with the
--   periodic task of Server/Content/websocket_service.py that gives the tasks out, in stretches between
--   its `await`s. Schedule/Tasks follows any sequence of these and of what happens in between.
-- * WebSocketService (Server/Content/websocket_service.py): how a token's connection is registered, and
--   in WebSocketService/Serve how it is served; the handshake is that of Codecs/Messages, and what the
--   proxy does is a parameter.
-- * Codecs (Common/codecs.py, bases.py, utils.py): decoding and encoding over JSON trees. Codecs/Trees has
--   the trees, Codecs/Metaclass how classes inherit codecs, Codecs/Classes the codecs of every class,
--   Codecs/Conforms and Codecs/Proper the values and the codecs that Codecs/RoundTrip and Codecs/Typing
--   are about. Codecs/Messages is Common/WebSocket/messages.py with these codecs: Codecs/Sending and
--   Codecs/Building are about what is made and sent, and Codecs/Caught about what decoding raises.
-- * Database (Server/Content/postgresql.py): the pool, and users, teams and quotes put together from rows.
--   What the queries answer is a record; Database/Tables says what they answer by the tables, and what a
--   user is by the tables, and Database/Reading is about the methods. Database/Rows, Lookups, Distinct and
--   Groups are about the dictionaries in between.
--
-- Time is a natural number of one small unit, and a call of now() an argument: the clock does not move
-- within a stretch of code without an `await`. Texts that are only compared (keys, identifiers, names)
-- are numbers. The random texts of token_urlsafe, the database and bcrypt are arguments; where a
-- theorem needs random texts to be new, it says so. Every other loop goes over a list, and needs no
-- fuel.
--
-- Not modelled: logging, the process pool, the aiohttp runner and middlewares, the parsing of JSON texts,
-- and PostgreSQL itself. The frames of Proxy carry the outcome of decoding as a part; what decoding does
-- is in Codecs.
pub mod Prelude
pub mod Ratelimit
pub mod Access
pub mod Handshake
pub mod Token
pub mod Server
pub mod Resource
pub mod Auth
pub mod Messages
pub mod Proxy
pub mod Guards
pub mod ResourceService
pub mod HttpClient
pub mod Schedule
pub mod WebSocketService
pub mod Codecs
pub mod Database
