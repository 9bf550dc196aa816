-- ===== src/Lib.antt =====
-- The verification library of zigbeemq, a Zigbee hub in Go with an MQTT bridge and a web interface.
--
-- The program. The hub (package internal/hub) owns the table of devices. Its methods are called by
-- the web server (internal/web), by the bridge (internal/mq) and by the callbacks of the library
-- goznp, which speaks to the coordinator. A method takes the lock of the radio for each call of
-- goznp and the lock of the table for each change, sends an event to the subscribers, and may
-- start goroutines. Frames from devices arrive as AF messages; button presses go through a
-- detector with timers.
--
-- Files and what they model:
--   Prelude, Prelude/Tests, Prelude/Lists, Prelude/Text, Prelude/Affixes, Prelude/Maps: texts as
--     lists of ASCII codes with the functions of Go's package strings that the source calls, and Go
--     maps as association lists;
--   Zigbee, Radio: the data types, constants and functions of goznp and the methods of its adapter,
--     as parameters;
--   Ieee: internal/hub/ieee.go and isZeroIEEE of internal/hub/hub.go;
--   Known: internal/hub/known.go;
--   Device: the types Device and Endpoint of internal/hub/hub.go and Relay of internal/hub/relay.go;
--   Errors: the errors of the hub, isUnreachable, displayRadioError, mapRadioError;
--   Hub: the record Hub, New, Device, Devices, DeviceByName, Subscribe, broadcast, saveCache and
--     loadCache of internal/hub/hub.go; Hub/Subscribers and Hub/Cache hold the proofs on the last
--     four, Hub/Channel one channel from Subscribe to the end;
--   Hub/Control: Turn, Toggle, SetBrightness, PermitJoin, readState, readOccupancy,
--     noteUnavailable and startRecovery with its goroutine; proofs in its child modules;
--   Hub/Registry: Refresh, Interview, applyInterview, Update, Remove, noteJoined, eventIEEE, the
--     callback that Open registers, maybeSetupMotion (Interview is the child module of that name,
--     Join has the callback's goroutine); proofs in the other child modules. Reach has the step
--     relation of the hub's operations;
--   Concurrent: the methods of the hub as sequences of critical sections and calls of the radio
--     (Concurrent/Methods), side by side under a schedule (Concurrent/Pool). Concurrent/Alone joins
--     them to the sequential definitions, Concurrent/Keeps has what every schedule keeps,
--     Concurrent/Ends that each method ends;
--   Incoming/Parse: parseAFIncoming and parseAFIncomingExt of internal/hub/incoming.go;
--   Incoming/Press: startPress, finishPress, cancelPress and the callbacks of their timers;
--   Incoming/Action: decodeAction, xiaomiClickCount, clickAction, toUint;
--   Incoming/Reports: noteAction, noteOccupancy, applyMotionReport, applyLightReport, zoneIDForIEEE;
--   Incoming/Handle: handleIncoming, deviceForNwk, handleXiaomiOnOff, over the hub with its press
--     detector;
--   Incoming/Listener: the function that hookIncoming gives to OnFrame, with the hub's queue;
--   Hub/Motion: the goroutine of maybeSetupMotion, enrollIASZone;
--   Hub/Bind: maybeBindSwitch and clearBound of internal/hub/incoming.go;
--   Hub/Start: Open, expandHAEndpoint of internal/hub/incoming.go, Network;
--   Relay/Codec: the codecs of internal/hub/relay.go, delayRaw, inchingPayload, applyRelayRead;
--   Relay/Call: calls of the radio that may fail, over the hub and the world, as a monad;
--   Relay/Exchange: relayExchange of internal/hub/relay.go and noteAF of internal/hub/incoming.go;
--   Relay/Patch: RelayPatch and its check in ApplyRelay;
--   Relay/Settings: ReadRelay, ApplyRelay, storeRelay, relayRadio and the requests they send;
--     Relay/Settings/Setup has setupRelay, bindRelay, reportRelayOnOff and scheduleRelaySetup, the
--     other children the proofs;
--   Mq: setName of internal/mq/bridge.go and its conversions of brightness;
--   Mq/Publish: publishDevice, unpublish and the rounds of Run, as lists of the calls of publishRaw;
--     its child Rename joins it to Update of the hub, Values reads the body of a message by its keys;
--   Mq/Run: New, Run, OnConnect and publishRaw, with a client that connects and loses the connection;
--     Mq/Run/Sending has what is sent, Mq/Run/View the specification in names;
--   Mq/Set: parseSet, relayPatch and handleSet;
--   Web: the handlers of internal/web/server.go; Web/Status and Web/Laws have the proofs;
--   Web/Stream: the stream of events of internal/web/server.go;
--   Program: cmd/zigbeemq/main.go, from the settings to what it starts;
--   Examples: a coordinator, a hub and the theorems at concrete inputs.
--
-- How the code is read. A method on *Hub takes the record Hub and gives a new one; a field of a
-- pointed-to device is assigned by `modify` under its key. In these definitions the critical
-- sections of one method follow one another without another method between them; the module
-- Concurrent takes them apart again, for the methods that run under the lock of the table, and lets
-- a scheduler interleave them. There a critical section is one step, a call of the radio is one
-- step, and a goroutine that waits for a lock is one whose turn has not come. Interview reads the
-- kind of a device through its pointer and without the lock, which is a step of its own. Goroutines
-- that a method starts are listed in the field `tasks`, and the callbacks of the press timers are
-- inputs of their own. In Incoming/Press each critical section of pressMu is one move and the call
-- of noteAction after it another, so that every interleaving of frames and timers is a list of
-- moves; the hub's own handling of a frame notes the action at once. Logging is left out. The radio
-- is a record of functions on a `World` that it may read and change. A complete file that saveCache
-- has written is taken to be read back without loss, so the struct tags are not part of the model;
-- an error of the file system, a file that is cut to nothing and a part of a file are one that
-- cannot be read. In Concurrent the write is two steps, of which the first cuts the file to
-- nothing; where two writes overlap, the file is that of the one that ends last (in the program a
-- longer one may leave its end behind, which makes the file one that cannot be read). Texts are
-- ASCII. Times are in nanoseconds. Go's `range` over a map visits the association list in order.
-- The table knownByIEEE has no entries, so a lookup in it gives none.
--
-- Numbers. A byte or a 16-bit value is a natural number, wrapped where the source converts. The
-- conversions between per cent and levels are exact: float64(p) / 100 * 254 and float64(l) / 254 *
-- 100 are cut off to the same whole number as the rational value, and the bridge's are rounded to
-- the same. Seconds are whole multiples of 2^-53, which every float64 from 0.5 to 4096 is.
--
-- Bounds. A method has at most 43 critical sections and calls, which are those of a recovery of
-- five rounds. Every recursion is on a list, but for the four tries of expandHAEndpoint and the
-- digits of a number, which has at most as many as its value plus one. A channel of a subscriber
-- holds 256 events, the queue of frames 128 messages, the slot of an exchange 8; the five waits of
-- a recovery are those of startRecovery. The wait for an answer is over the list of the moments
-- until its timer fires.
--
-- Exchanges with a relay. The lock of the radio is held from the sequence number to the answer, and
-- the slot of the exchange lives as long, so an exchange is one step over the hub and the world. A
-- Go map of attributes to write is a list in the order of the source.
--
-- Messages of the bridge. What a broker retains is a function of the list of publications: for each
-- topic, the last message with the retain flag, or none if it is empty. The end of the wait after a
-- click is a step of its own, so that it may come before or after any event; so are the connection,
-- the call of Devices by OnConnect and each device that OnConnect publishes. The bridge's part in
-- the interleaving is one publishDevice or one round of Run; the other parts of the program change
-- the table and broadcast at any time. Messages reach the broker in the order in which they are
-- sent.
--
-- Not modelled. Close, which only calls the adapter; how hookIncoming finds the ZNP client; the
-- routing and the static files of internal/web; the options of the connection to the MQTT broker
-- and its will, which the broker sends; fractions and negative numbers in MQTT messages; the
-- signals and the shutdown of cmd/zigbeemq. The methods for relays, which hold the lock of the
-- radio, are not taken apart in Concurrent. The libraries goznp and paho and the decoding of JSON
-- are parameters or left out.
pub mod Prelude
pub mod Zigbee
pub mod Ieee
pub mod Concurrent
pub mod Known
pub mod Device
pub mod Errors
pub mod Hub
pub mod Radio
pub mod Incoming
pub mod Relay
pub mod Mq
pub mod Web
pub mod Program
mod Examples
