-- ===== src/Lib.antt =====
-- minecraft-ping: a model of the command-line client, of its staging server, and of the program that
-- checks a release against that server.
--
-- The client measures how long a Minecraft server takes to answer. It reads its arguments into a
-- configuration, parses the destination into a target, resolves the target to candidates for
-- dialling, behind a guard that refuses addresses that are not public, dials the candidates side by
-- side, and sends probes in a session: over TCP for the Java edition, over UDP for the Bedrock
-- edition. The staging server answers both kinds of probe, with a codec of its own. The release
-- integration unpacks a released client, starts the staging server in one of two ways, and has the
-- client probe it.
--
-- Files and code (paths from the repository's root):
--   Base, Io, Text, Net   helpers, and what the program uses of Go's library: readers, connections,
--                         byte strings, strconv.Atoi, unicode/utf8 (Text.Utf8), fmt.Sprint of an int
--                         (Text.Decimal), net/netip, net.SplitHostPort, net.JoinHostPort
--   Effects               actions that log what they open and close (Effects.Balanced: the log of
--                         an action leaves open what is on its list, and nothing else)
--   Address               endpoint.go (Errors, Family, Endpoint), editions.go (Edition),
--                         address.go (Candidates)
--   Java                  protocol.go (VarInt, Packet, Messages), java.go from the deadline of
--                         pingJavaPreparedContext on (Ping); Action is a connection with errors
--   Bedrock               bedrock.go: ping, pong and status text (Bedrock), candidates, exchange and
--                         search (Bedrock.Probe)
--   Client                client.go resolveDialCandidates, java.go resolveJavaRouteContext, and the
--                         prepared probes of java.go and bedrock.go with their texts
--   Probing               the probes with the connection that they open: pingJavaPreparedContext and
--                         remoteAddrPort of java.go, pingBedrockCandidate of bedrock.go, Probe and
--                         ProbeBedrock of internal/stagingserver
--   Client.Dialing        client.go dialCandidates and dialCandidateAfterDelay, as steps of the
--                         goroutines and of the caller in any order, and its shortcuts
--   Session               session.go runTextSession
--   Cli                   cli.go: scanArgv (Cli), normalizeCLIConfig (Config), prepareProbe and
--                         runWithRuntime (Run); version.go
--   Staging               internal/stagingserver/server.go (Codec, Server), bedrock.go (Bedrock),
--                         Serve and the loops of the listeners (Serve)
--   Exchange              java.go and server.go at the two ends of one connection
--   Release               cmd/release-integration/config.go (Config) and main.go: archives (Archive),
--                         backends (Backend), the relay of datagrams (Relay), waits (Waiting),
--                         probes (Probe), run and runCLI (Run)
--   Witnesses             the results at concrete inputs
-- A file below one of these names holds proofs on its parent, and is named for what they show.
--
-- Conventions. A string is the list of its bytes. An int32 is its bit pattern, a number below
-- 2 ^ 32, negative from 2 ^ 31 on; conversions to a narrower integer keep the low bits. An `int`
-- that may be negative is an integer of Base.Int. Times are nanoseconds. A function that returns an
-- error returns a Result; an error keeps what its text mentions. A connection has the bytes to
-- come and the error behind them, the bytes written, and the faults of its writes and deadlines.
-- What opens and closes things is an action of Effects: its result, the events on the way, and what
-- it put on the list of things to close later. The resolver, the SRV lookup, the random source, the
-- clock, the context, `json.Unmarshal`, `json.Valid`, `strconv.ParseFloat`, `big.Rat.SetString`,
-- `strconv.FormatFloat`, `Addr.String`, `netip.ParseAddrPort`, `net.LookupPort`, dials, files,
-- archives, commands and sockets are parameters.
--
-- Fuel. `session_loop` counts turns, since a session without a count may go on for ever; with a
-- count, one turn more than the count is enough (Session.Ending). `wait_loop` counts turns too, and
-- the 241 that `wait_for` gives it are enough for a clock that goes on by the retry interval at
-- each turn (Release.Waiting). `decimal_digits` has more fuel than digits. The loops of the readers
-- recur on the bytes to come, that of writeVarInt on a well-founded order, all others on their list.
-- `trim_loop` of Text has the length of its string for fuel, and each turn takes a byte at least.
--
-- Not modelled: the lengths of the delays of dialCandidates, the floats of the session's summary,
-- the flags of cmd/staging-server and cmd/release-integration, and the streams that the TCP relay of
-- cmd/release-integration copies.
pub mod Base
pub mod Io
pub mod Text
pub mod Net
pub mod Effects
pub mod Release
pub mod Address
pub mod Java
pub mod Staging
pub mod Exchange
pub mod Bedrock
pub mod Client
pub mod Probing
pub mod Session
pub mod Cli
pub mod Witnesses
