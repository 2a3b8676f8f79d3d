-- ===== src/Lib.antt =====
-- yggdrasil-sdk-go, the Go SDK of integration adapters: a model of its code and theorems about it.
--
-- An adapter registers handlers under capabilities and runs them over a transport, AMQP or HTTP.
-- Each request reaches a handler as a delivery, which the handler's bridge replies to and settles.
-- The reconcile package puts typed reconcilers behind one such handler, dispatches requests to them
-- by name, and emits an event for each change. Webhook servers, signature verifiers and a TLS
-- loader stand beside these.
--
-- The parts, with the files of the repository that they model:
--   Base        byte texts with the functions of strings, encoding/hex and strconv that the code calls,
--               association lists for maps, int64 arithmetic, lists and Boolean tests
--   Rpc         rpc/transport.go: errors, envelopes, deliveries; a handler is a program that calls Ack,
--               Nack and Reply and sees their results, and `run` runs it against a transport's state
--   Adapter     adapter/adapter.go: New, Register, wrap, errorEnvelope, Run; adapter/transport.go:
--               ListenHTTP, ListenAMQP and the dial that retries (Adapter.Listen)
--   Amqp        rpc/amqp/amqp.go: one delivery of deliverLoop, with its two sync.Once as flags
--               (Amqp.Delivery); Consume and setupConsumer (Amqp.Consume); the loop that rebinds a
--               consumer against the Close of its subscription, as moves that interleave (Amqp.Rebind);
--               Publish and Request (Amqp.Client); New, NewWithDial, SetDialFunc and watchdogLoop
--               (Amqp.Watchdog); connectionForUse, reconnect, publishChannel, Close and
--               the backoff (Amqp.Connection), where a call that waits for a mutex of its own goroutine
--               is stuck; and these with the watchdog on any number of goroutines, which interleave at
--               the mutexes and at what they share (Amqp.Schedule)
--   Http        rpc/http/http.go: serveHTTP (Http.Serve), Request and Publish (Http.Client), New,
--               Consume and Close (Http.Transport)
--   Sig         sig/hmac: VerifyStripe (Sig.Stripe), VerifyHubSignature256 (Sig.Hub), and
--               webhookhttp/helpers.go
--   Webhook     webhookhttp/server.go: New, Handle, serveRoute, and ListenAndServe with its routes
--               (Webhook.Server) and its end (Webhook.Stop)
--   Mtls        mtls/mtls.go: Load, LoadFromEnv
--   Events      sdk/events: the event, NewHTTPEmitter, Emit
--   Reconcile   sdk/reconcile: identities (Identify), events (Emission), the handlers of a reconciler
--               (Operations), registration, legacy names and dispatch (Registry, Legacy), and all of
--               these behind an adapter on AMQP (Remote)
--   Surface     surface: Validate and the loaders (Surface.Manifest), the handlers of RegisterHandlers
--               (Surface.Handlers), VerifiedCallerID (Surface.Caller)
-- Modules below a part hold its theorems, and its modules named Tests, or ending in it, their use at
-- concrete values.
--
-- Names follow the source in snake case. State is passed explicitly: a function that changes state
-- returns the new one, and what the code does to the outside is a list of actions or effects in
-- their order. A Go error is a value of a data type. Every loop of the code runs over a list or
-- down a count and is structural recursion: the dial loop of adapter/transport.go recurs on the
-- attempts that are left, and the waits for a reply and for the moves of a consumer on the list of
-- what happens. No definition has fuel, but for the printing of a number in decimal, whose fuel is
-- the number itself plus one, more than its digits, and for the moves of a goroutine that runs alone
-- (Amqp.Schedule.Alone), of which twelve are enough.
--
-- Parameters stand for what is not in the repository, each with what it is where it is declared:
-- encoding/json, YAML, HMAC and SHA-256, PKCS#12, base64, the clock, the environment and the file
-- system, the case table of strings.ToLower beyond ASCII, %q, floating point numbers, reflection,
-- the answers of a broker and of HTTP servers, and the error of a context. Theorems that need a
-- promise of one of them have it as a hypothesis: `Frames` (a JSON reads back), `IsTotal` (every
-- envelope has a JSON), `Arrives` (a body is read within its limit), `IsBytes` (a MAC is bytes).
--
-- Not modelled: the fields of a manifest that its validation does not read; sockets, graceful
-- shutdown, goroutine scheduling within a part other than Amqp.Rebind and Amqp.Schedule, logging, and
-- the times that contexts and timers measure.
pub mod Base
pub mod Rpc
pub mod Adapter
pub mod Amqp
pub mod Http
pub mod Sig
pub mod Webhook
pub mod Mtls
pub mod Surface
pub mod Events
pub mod Reconcile
