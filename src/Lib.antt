-- ===== src/Lib.antt =====
-- Verification of the island node daemon (island/src), the TypeScript program that runs on every
-- node of the mesh: it makes friends by signed tokens, exchanges sealed messages and files with
-- them, keeps a directory of friend codes, and on the gateway opens and closes the internet gate.
--
-- The parts, and the file that models each (paths from the repository's root):
--   island/src/core/gate.ts        Gate: `open` and `close` cut at every await into open_request,
--                                  decided, begin_job, finish_job, and the timer's fire; `step`
--                                  interleaves them freely
--   island/src/core/canary.ts      Canary: makeCanary, verifyCanary
--   island/src/cli.ts              Cli.Flags (parseFlags), Cli.Shell, Cli.Friend (req, friend),
--                                  Cli.Keys (keygen, canary, runCli)
--   island/src/core/envelope.ts    Envelope: sealSign, openVerify
--   island/src/core/canonical.ts   Json (the values), Canonical (the signed text)
--   island/src/core/codec.ts       Codec
--   island/src/core/identity.ts    Identity: loadIdentity, saveIdentity
--   island/src/core/friends.ts     Friends.Wire (the signed objects), Friends.Book (FriendBook)
--   island/src/core/messages.ts    Messages: sealMessage, openMessage, MessageBook, and the inbound
--                                  route of island/src/main.ts
--   island/src/core/ratelimit.ts   RateLimit: AttemptLimiter
--   island/src/core/auth.ts        Auth: tokenOk, operatorOk, manageOk
--   island/src/core/share.ts       Share: sanitizeFileName and MemoryFileShare; Share.Sqlite;
--                                  Share.Interface (FileShare), Share.Remote (RemoteFileShare),
--                                  Share.Build (buildShare)
--   island/src/core/registry.ts, island/src/core/friendcode.ts
--                                  Registry: the signed records, the code of a key, the lookup;
--                                  FriendCode: invites
--   island/src/core/events.ts      Events: reports, their signatures and the collector;
--                                  Events.Collect: collectLocal and the push of main.ts;
--                                  Events.Feed: EventStore.list and /admin/events
--   island/src/core/sysinfo.ts     Sysinfo.Journal (the pattern of a ban), Sysinfo.Fail2ban,
--                                  Sysinfo.Links (wg, the ladder, the self-heal daemon)
--   island/src/main.ts             Daemon (isOperator, authorizeShare, requireOperator,
--                                  requireAdmin), Errors (errorStatus), Node.State (Ctx, persist,
--                                  deliver), Node.Bodies (readJson), Node.Friending, Node.Status,
--                                  Node.Admin, Node.Mail and Node.Files (the routes),
--                                  Node.Routes (route), Node.Spoke (the headers of a
--                                  download), Boot (parseArgs, resolveHost, provisionAdminToken)
--   gui-and-app/frontend/src/api.ts
--                                  Dashboard: usePoll and the token of the view password
-- A method of a class is a function with the source's name in snake case; it takes the object's
-- state last and returns the new state. A call that throws returns `err` (Errors.Result) or `none`.
-- The daemon's guards use RateLimit, Auth and Friends.Book; Canary, Messages and Friends.Wire use
-- Envelope, Canonical and Codec, and all of them the record Platform.
--
-- Platform stands for what the repository does not implement: libsodium, JSON.parse and
-- JSON.stringify, Date.parse and toISOString. A theorem that relies on their documented behaviour
-- takes it as IsLawful, which Tests.Toy shows to be satisfiable; IsRead (Envelope.RoundTrip) says
-- that JSON.parse reads a sealed text as its contents with the keys sorted. SHA-256 and toUpperCase
-- are parameters, random bytes and the readings of the clock are arguments.
--
-- Numbers: texts are lists of UTF-16 code units, times are milliseconds since 1970, sums of times
-- stand where the source subtracts, so that nothing is cut at zero. The only fuel is that of
-- Json.decimal (a number has no more digits than its value plus one), that of the reader of
-- Canonical.Strings (the length of the text), and that of the loop of parseFlags (one round for
-- each argument and one to see the end).
--
-- A node (Node) is the state of `Ctx` with its disk and what it sent; a handler is a function on it
-- that keeps its changes when it throws (Node.State.Act), the dispatcher of the routes is
-- Node.Routes, and Node.Run interleaves requests with the replies that the gate waits for. What
-- the runtime does beside Platform is the record Runtime, what one request meets outside (the
-- clock, randomness, the answers of peers, of the gate node and of commands) is the record World.
--
-- Not modelled: HTTP parsing and the sockets, the file system but for the three files of `persist`
-- and the marker of the first run, the calls of the model and of the helper that the gate makes
-- (they are events here), the inside of SQLite (its statements are interfaces, and what they do
-- is FilesTableLaws of Share.Refinement and IsTable of Registry), generateIdentity, the rest of
-- `boot`, /registry/announce, the words of the usage text and the error output of cli.ts, the web
-- pages and components (of gui-and-app/frontend only the polls are modelled), and the programs in
-- other languages
-- (gui-and-app/backend, daemon, pi-deployment). A handler of a route runs to its end before the
-- next one, but the gate and the first-run page, which are cut at their awaits. Tokens, accepts and
-- notices whose fields are not texts are refused by the model (Node.Bodies, Friends.Wire), while
-- the source lets them through if their signature holds. `persist` writes its files in their order
-- up to one that cannot be written (Node.State.written); a file written in part is not modelled.
-- `String(v)` is taken to throw where it reads a message (Messages), not in the other routes.
pub mod Common
pub mod Auth
pub mod Boot
pub mod Canary
pub mod Canonical
pub mod Cli
pub mod Codec
pub mod Daemon
pub mod Dashboard
pub mod Envelope
pub mod Errors
pub mod Events
pub mod FriendCode
pub mod Friends
pub mod Gate
pub mod Identity
pub mod Json
pub mod Messages
pub mod Node
pub mod Platform
pub mod RateLimit
pub mod Registry
pub mod Share
pub mod Sysinfo
pub mod Tests
