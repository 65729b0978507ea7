-- ===== src/Lib.antt =====
-- Account abstraction on LNET: the ERC-4337 bundler in bundler/src with its authentication, and the
-- example application in examples/privy-google-aa: its backend in server, which stands before the
-- bundler, and its page in src.
--
-- The program. A client posts JSON-RPC requests to the HTTP server (`createServer` in
-- bundler/src/index.js). The server parses the body, verifies the bearer token of a batch that asks
-- for a protected method (`createAuthenticator` in bundler/src/auth.js), and hands each request to
-- `handleRpc`, which calls the methods of `LnetBundler`. `sendUserOperation` checks an operation,
-- asks the EntryPoint for its hash, simulates it, and puts it into `mempool` and `history`;
-- `bundleNow` takes operations from `mempool`, sends them as one transaction, and marks them.
--
-- The proxy (`handleApi` in server/api.mjs) guards and routes the requests of a browser:
-- `handleBundler` takes a write only with a session cookie (server/session-cookie.mjs) and only if
-- the policy (server/userop-policy.mjs) lets it pass, and then forwards it to the bundler with the
-- token of the cookie.
--
-- The backend also makes the session (`handleSession`), for a user whose Privy token it verifies
-- (server/privy-auth.mjs), shows the log (`handleHistory`), and reads its settings and bodies. The
-- page (src/App.tsx with session.ts, userOp.ts and history.ts in examples/privy-google-aa/src) logs
-- in, builds, signs and sends an operation, waits for its receipt, and shows the log.
--
-- The files.
--   Base          helpers: tests, lists, `Result` for code that throws, the insertion-ordered `Map`
--   Js            values of the language, texts, `BigInt`, numbers (Num) and their comparison, dates,
--                 iteration
--   Ethers        what the program takes from ethers, and thrown errors
--   Bundler       bundler/src: Types, Errors, Normalize, Simulation, Gas, State, Query, Rpc, Server,
--                 Startup, Args, Settings (index.js) and Auth (auth.js); World has the calls that
--                 wait as steps
--   Bundler/Invariant, Bundler/Lifecycle, Bundler/Normal, Rejects, Queue, Sending, Receipts, Access,
--   Answers       the theorems, by what they are about
--   App           the backend: Codec (what it takes from ethers), Policy with Create
--                 (userop-policy.mjs), Cookie (session-cookie.mjs), Privy with Keys (privy-auth.mjs),
--                 Log with Printed (userop-log.mjs), and of api.mjs Configured and Described (settings),
--                 Guards, Api (routing), Sessions, Proxy, History, Bodies, Serve; their other children
--                 have the theorems
--   Client        the page: Browser (its calls and their answers), Session (session.ts), Rpc, Sending
--                 and Reverts (userOp.ts), WriteLog (history.ts), Screen and Account (App.tsx); Retries,
--                 Waiting and the children have the theorems
--   Tests         toy parameters, and one run of each theorem
--
-- The state. `Bundler` has the fields of the class. An item is one object that both maps share and
-- that `bundleNow` mutates, so the maps hold references into `heap`. What runs between two waits of
-- a method is one function (`accept`, `begin_bundle`, `finish_bundle`); `World` holds the calls that
-- wait, `step` runs one of them, and a list of events is an order in which Node may run them.
-- `send_user_operation` and `bundle_now` are the methods with nothing in between; `answers` runs the
-- requests of a batch in their order in this way. In the same way `Verifier` has the keys of Privy,
-- the fetch that runs and the requests that wait for it, and its `step` takes a request or the end of
-- the fetch. `ApiState` has the token cache and the log of the backend, one request at a time. `Page`
-- has the variables of the page and its calls so far; a computation of the page is a function of it
-- (`Io`), whose calls run one after another.
--
-- Parameters. ethers is a record of functions (`Ethers`) with the laws that the program relies on
-- (`EthersLaws`); the chain's answers are `Chain` or the data of an event, `parseLog` is
-- `LogParser`, and `jwtVerify` of jose is `JwtVerify`. `JSON.parse` has been applied to a request.
-- For the proxy, `Codec` has the decoding of calls, `Crypto` the HMAC and the encodings of Node,
-- `UrlParser` the parsing of an origin, and `Network` the bundler behind `fetch`. `KeyLibrary` has
-- Node's keys and signatures, `BodyCodec` the bytes of bodies, `ReceiptCodec` the decoding of
-- receipts, `Files` the files of the bundler. For the page, `Browser` has the answers to its calls,
-- the clock and the random bytes, and `Encoder` the encoding of calls, with `EncoderLaws`.
--
-- Bounds. The loops are over lists, and are structural. `decimal` recurses on fuel: n + 1 rounds
-- are enough for n, since each divides by ten. `waitForUserOpReceipt` counts to sixty in the code,
-- and recurses on that number. Numbers of the program are integers here, and a
-- number with a fraction is kept as its text. Texts have the letters of ASCII only where a case is
-- changed or white space trimmed.
--
-- Not modelled: the schema of the log, what is printed to the console, the timers, the reading of
-- wallets (`loadWallets`) and the start of the servers (`main`, vite-api.mjs), the HTTP headers of the
-- bundler, for they are input and output; two calls of the page that share one login; the rendering of
-- the page with React; the end-to-end scripts, which drive a live chain, and the tests; the contracts,
-- which are in another language.
pub mod Base
pub mod Js
pub mod Ethers
pub mod Bundler
pub mod App
pub mod Client
pub mod Tests
