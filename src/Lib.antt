-- ===== src/Lib.antt =====
-- A verification library of the Go SDK of the repository: a client of a server that runs agents
-- in sessions. A session's events arrive as a stream; a caller drives turns on it, folds its
-- events into blocks, and walks the server's listings.
--
-- The parts, and the files that model them:
-- - turn.go: the tracker that decides when a turn has ended. Turn has the state and every
--   method, with the part of turnRun.track of chat.go that calls them; Turn/Signals describes the
--   end of a turn with no state, and Turn/Ends compares the two; Turn/Boundary is about what an
--   event leaves alone.
-- - chat.go, fire of hooks.go, and PostEvent and ResolveElicitation of session.go where a turn
--   calls them: Chat has the state of a turn and the hooks, Chat/Sides the side effects of one
--   event (act and all that it calls), Chat/Loop the loop (drive). Chat/Rules states what a turn
--   may do as a step relation on its effects, and Chat/Lawful is about whole turns. Chat/Emits is
--   the rule for what every side effect keeps of the tracker and of what is handed over;
--   Chat/Civil and Chat/Closing use it.
-- - tool.go: Tool, the registry of the caller's tools, and what a call makes of a tool's
--   outcome; Tool/Listed.
-- - blockstream.go and block.go: Block has the blocks, BlockStream/State to BlockStream/Fold the
--   fold of events into blocks, with one function per method of blockState. BlockStream/Keeps,
--   Kept and Blind are the rules by which a property is kept by the whole fold; Streamed, Polite
--   and Reported use them; Flushed is about the loop over the buffered text.
-- - transform.go and query.go: Transform and Query; Query/Answer.
-- - list.go: Listing, the walk over pages; Listing/Complete and Listing/Bounded. Listing/Gate is
--   gateFetch, by which the fetches of several listings share tokens.
-- - stream.go and the decoding of event.go: Stream has the reader of server-sent events, from
--   the answer of the connection to the last step, and Decode the registry of events. Stream/Kept,
--   Runs and Lines carry what every line keeps; Stream/Promises and Stream/Clean are about whole
--   streams, Stream/Printed and Stream/RoundTrip about the lines that a server prints.
--   Stream/Monitor is the idle monitor, whose callback interleaves with the read loop in single
--   loads, stores and readings of the clock; Stream/Monitor/Silence and Grounds carry what every
--   step keeps, and Stream/Monitor/Fires and Alert are about all interleavings.
-- - client.go: Client has the redirect policy, the redirects of uploads and the test of a
--   credential's transport, Client/Config the options and Client/New the function New.
--   Client/Redirects and Client/Uploads are about redirects, Client/InClear about what one means
--   for a credential, and the modules below Client/New about the clients that New builds.
--   Client/Transfer has the answers to unary calls, uploads and downloads, and
--   Client/Transfer/Whole is about downloads.
-- - tree.go: Tree, the walk over a session's subtree, in which any goroutine may take the next
--   step, and the answer of SubtreeBusy. Tree/Steps, Moves and Knows carry what every interleaving
--   keeps for Tree/Busy; Tree/Bounds and Tree/Found are about the nodes, Tree/Verdict about the
--   answer, Tree/Ends about the end of the walk.
-- - session.go and files.go: Session has one plan for each operation, its guards and its
--   request, and Session/Calls runs it, with the guard of resolve of client.go; Session/Sound is
--   about the paths. Session/Directory has ResolveAgent and ResolveOnlineRunner.
-- - errors.go: Errors, with the sentinels as one sum of error values, the sanitising of text and
--   the message of an APIError.
-- - The events and JSON values that the package reads: Wire. The sequences of values and errors
--   that are pushed to a caller's loop: Sequence.
-- - Prelude: names of the standard library, lists and tests on native numbers, text as lists of
--   code points, maps and sets with text as keys.
--
-- The parts interact as in the code. A turn (Chat/Loop) hands each event to the tracker (Turn),
-- to the caller, and to the side effects (Chat/Sides), which run tools (Tool) and post to the
-- server. The fold (BlockStream) reads a sequence of events, of a turn or of a bare stream, and
-- Query reads the blocks of the fold through two transforms (Transform).
--
-- How code is read as definitions:
-- - A method that writes its receiver returns the new state. A caller's loop is a function of
--   all that it has been handed, and answers whether it goes on; what it is handed is a field of
--   the state.
-- - Hooks, tools and the server's answers are functions of what happened before, or of the
--   number of a request, so that they may answer differently each time. A panic of the caller's
--   code is one of its outcomes.
-- - An error is a constructor of Err with what the code formats into it. The text that a
--   wrapping with %w adds around an error, and quotation marks of %q, are left out.
-- - Strings are lists of code points, and an index into bytes is one of the same place between
--   code points; invalid UTF-8 is read as the replacement rune.
-- - Packages encoding/json, fmt, net/http, net/url, net and strings are parameters (Codec of
--   BlockStream/Items, Json of Decode, Decoder of Client/Transfer, status_text of Errors, Net of
--   Client, Http of Client/Config), and so are the lines of bufio.Scanner and how they ended
--   (Ending of Stream).
-- - A goroutine is a task of the state, and a step of any task is a step of the whole (Goes of
--   Tree, Moves of Stream/Monitor). In a walk over a subtree, a listing of the server is a
--   function of the session's id, which does not change while a walk runs.
--
-- Fuel and bounds: the loop of flushTextChunks has one round for each code point of the buffer
-- and one more, each round that is followed by another takes at least two code points out of the
-- buffer, and BlockStream/Flushed is about where it stops. The walk over a listing recurses on
-- the pages that are left of maxListingPages, which is the bound of the code itself. All other
-- loops recurse on the list that they read.
--
-- The limits of a walk are those of TreeOptions with their defaults, and a frame of a stream is
-- bounded by maxFrameBytes; neither needs fuel.
--
-- Not modelled: the building and sending of requests (newRequest of client.go), their queries,
-- and the multipart body of an upload, QueryStream, the query options of listings, the single
-- read of a Turn, timestamps, and locks other than those of the idle monitor and the walk. The
-- reader of a stream and its monitor are joined by whether the monitor fired, not step by step.
-- Of a decoded event only what the package reads is kept. internal/api is generated. A transform
-- is modelled for a caller that reads to the end.
pub mod Prelude
pub mod Wire
pub mod Errors
pub mod Turn
pub mod Sequence
pub mod Block
pub mod BlockStream
pub mod Decode
pub mod Stream
pub mod Client
pub mod Tree
pub mod Session
pub mod Tool
pub mod Chat
pub mod Listing
pub mod Transform
pub mod Query
