-- ===== src/Lib.antt =====
-- A model of GachaMind, a drawing and guessing game for the browser, and what is proved of it.
--
-- The program. Players join a room over a web socket; a game-session process is the authority over
-- its rooms: it runs the rounds, judges the guesses and keeps the scores. When a game is over it
-- publishes the result to a queue, a worker hands it to the user service, and that service adds it to
-- the tables of games, players and statistics. Matchmaking assigns a code and a process to each new
-- room and keeps the assignments in Redis.
--
-- Which file models what:
--   * Base: the tests, lists and texts that the others share. A text is the list of its UTF-16 code
--     units, as in the source.
--   * Shared: packages/shared/src/index.ts. Shared/Protocol has the messages and constants of the
--     game, Shared/Account the records of assignments, accounts and results, Shared/Answer
--     `normalizeAnswer`, Shared/RoomCode the room codes.
--   * GameSession: apps/game-session/src. GameSession/Room is `Room` and GameSession/Rooms
--     `RoomManager` of room.ts; GameSession/Words is words.ts; GameSession/Shuffle, Score, Ranking,
--     Game and Guess are game.ts; GameSession/Handlers and Server are index.ts.
--     GameSession/Auth is auth.ts and GameSession/Config config.ts.
--   * UserService: apps/user/src. UserService/History and Games are history/history.service.ts, Games
--     its pages; UserService/Leaderboard is history/leaderboard.service.ts, Profile
--     history/profile.controller.ts, and Accounts the folders auth and user.
--   * Web: apps/web/src. Web/RoomSocket is features/room/useRoomSocket.ts, Web/DrawCanvas
--     features/room/DrawCanvas.tsx. Web/Mirror and Web/Feed hold what a browser shows against the
--     messages that the game session sends it, Web/Drawing what it sends against what becomes of it.
--   * Gateway: apps/gs-gateway/src/index.ts.
--   * ResultsWorker: apps/results-worker/src/index.ts, and in Retry the two services together.
--   * GameSession/Occupancy: apps/game-session/src/occupancy.ts, and GameSession/Protection:
--     apps/game-session/src/protection.ts.
--   * Matchmaking: apps/matchmaking/src/index.ts; Matchmaking/Claims has the requests that change what
--     Redis holds. Redis is there a record of operations with the laws of its documentation.
--
-- How code becomes definitions. A function that changes a room takes a session, which is the room and
-- the list of what has left the process so far in its order (messages to sockets, reports to Redis,
-- results for the queue), and gives the session after it. Maps and sets are lists in insertion order.
-- A pending `setTimeout` is the name of its callback in the room, and the event loop that runs it is
-- `fire_timer`. `Date.now()`, `randomUUID()` and `Math.random()` are fields of an environment that a
-- call takes. `handleJoin` is three functions, cut at its two awaits, since other events may run
-- there, and `syncTaskProtection` two, cut at its one. A thrown TypeError is an outcome; a message
-- that exhausts the stack or the memory is left out. An array of `shuffle` is a list of options, with
-- `undefined` as `none`. UUIDs are numbers, which the code only compares. The case mappings of the
-- runtime are parameters; that `toUpperCase` maps ASCII text letter by letter is the hypothesis
-- `UpperOnAscii`. Coordinates of strokes are carried unread; a width is in thousandths.
-- `Math.round` in the score is exact arithmetic, with the one input at which doubles differ written
-- out. A transaction runs to its end or leaves the tables alone.
--
-- The hook of a room is one record of its states and refs; its messages are those of the log of the
-- game session, each received at whatever time the browser's clock shows. bcrypt, the signing and the
-- check of tokens, base64url, percent-encoding, the writing of times and UUIDs and the answers of Redis
-- are parameters, with what their documentation says as named hypotheses (`IsBcrypt`, `IsBridge`,
-- `IsCodec`, `IsWritten`).
--
-- Bounds. Loops are recursion on lists, or on the count of attempts that the source gives.
-- `run_timers` runs as many timers as it is given environments, and `game_ends` says how many are
-- enough; `read_all` asks for as many pages as it is told, and one more than there are games is enough.
--
-- Not modelled: sockets, HTTP servers, the relay of bytes and the ping of idle connections; the clients
-- of Redis, RabbitMQ and the database; the mark-up of the web pages, painting, and the web server's
-- routes, which pass requests on; the deployment files. The scores in a browser are carried, and no
-- theorem compares them with the room's, since they differ after `game-started`.
pub mod Base
pub mod Shared
pub mod GameSession
pub mod UserService
pub mod ResultsWorker
pub mod Matchmaking
pub mod Web
pub mod Gateway
