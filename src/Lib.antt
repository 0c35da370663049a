-- ===== src/Lib.antt =====
-- Verification of the Go project example: a property booking back end.
--
-- The modules follow the packages under internal/. Errors, messages and users flow through them like
-- this: a handler of the router or of the nsq consumer calls a use case; a use case calls a
-- repository; a repository calls Redis or an object storage; errors come back as values, carry a kind
-- from xerrors, and end in an HTTP response.
--
--   Base, Text, Effects   shared: native numbers, Go's integers, strings and strconv, path.Join;
--                         `M S` is a Go method over the state of the outside: a value, an error or
--                         a panic
--   Xerrors               internal/xerrors/xerrors.go: `new` is `New`, `apply` one round of its
--                         loop; an `*Errors` is an address into a heap
--   Response              internal/pkg/http/response/response.go: a response with the log of the
--                         calls of the ResponseWriter
--   Nsq.Handler           internal/pkg/nsq/handler.go: the handlers of one topic and channel as a
--                         `System`, and a step for each point where the goroutines can interleave;
--                         `proceed` is a backend's next step in `HandleMessage`, the events of
--                         workers are those of `Work`
--   Nsq.Consumer          internal/pkg/nsq/nsq.go: `WrapConsumers`, `Use`, `Handle`, `Start`, `Stop`
--   Nsq.Producer          internal/pkg/nsq/nsq.go: the producer
--   Nsq.Middlewares       internal/pkg/nsq/middleware.go, and the loop in `Handle`
--   Redis                 internal/pkg/redis/redigo: each command, over a `Client`
--   Otp                   internal/entity/otp and internal/usecase/otp/otp.go
--   Randgen               internal/pkg/randgen/randgen.go: the goroutines and the channel, with a step
--                         for each point where they can interleave
--   Otp.Codec             internal/repository/otp/otp.go: `flattenOTP` and `deflateOTP`
--   Otp.Repository        internal/repository/otp/otp.go: its methods over `Redis`
--   Image, Image.Usecase  internal/entity/image and internal/usecase/image/image.go
--   Image.Uploads         internal/usecase/image/image.go: `Upload` and the URLs
--   Image.Repository      internal/repository/image/image.go over `Redis`
--   Image.Places          internal/objstoragepath/objstoragepath.go
--   ObjectStorage         internal/pkg/objectstorage/objectstorage.go
--   State                 internal/entity/state, internal/usecase/state/state.go and `Authenticate`
--                         of internal/usecase/authentication/authentication.go
--   State.Repository      internal/repository/state/state.go over `Redis`
--   Http                  internal/pkg/http/misc/misc.go, and of internal/pkg/http/request/request.go
--                         the pairs of `Query` and `PostForm`
--   Http.Versions         internal/pkg/http/request/request.go: the version header of `Compile`
--   Http.Routing          internal/pkg/http/request/request.go: `getRoutingHeader`
--   Router                internal/pkg/router/router.go
--   Router.Delegator      internal/pkg/http/monitoring/monitoring.go
--   Log                   internal/pkg/log/logger/logger.go; the backends are Log.Logrus, Log.Zerolog,
--                         Log.Zap and Log.Std, each over its package of internal/pkg/log/logger, and
--                         Log.Global is internal/pkg/log/log.go
--   Sqldb                 internal/pkg/sqldb: `Connect` with its retries, and `DB`
--   Defaults              internal/pkg/defaults/defaults.go: a struct is the list of its fields
--   ObjectStorage.Providers  internal/pkg/objectstorage/{local,gcs,s3}
--   Kothak                internal/kothak: Kothak.Sql is sql.go; Kothak.Registry the `Kothak` and its
--                         methods; Kothak.Connecting what one goroutine of `New` does;
--                         Kothak.Racing `New`, with a step for each access of something shared
--   Nsq.Nsqio             internal/pkg/nsq/nsqio/nsqio.go
--   Notification          internal/usecase/notification, with its entities
--
-- The other modules below these hold proofs, and the modules Tests runs on concrete values.
--
-- Parameters, for code that is not in the repository: `Client` (redigo and the server), `Bucket`
-- (gocloud.dev), `Urls` (net/url), the NSQ backends, the clock's value, random numbers and drawn ids.
-- Each of these packages is a record of operations with what its documentation
-- promises: `Library` (logrus, zerolog, zap), `Process` (Go's `log`), `Sqlx`, `Clouds` (gocloud.dev and
-- the clients of the clouds), `GoNsq`, `Templating` and `Parsing` (html/template), `Readers` (parsers of
-- durations and floats).
-- The keys of the OTP repository are parameters too, since no file declares them. `OtpRepo`,
-- `TempPaths` and `StateRepo` are interfaces of the use cases.
--
-- Every definition is total, and none uses fuel: loops are recursion on their lists or on the number
-- of their rounds; `NSQProducer.Stop`, which never returns, is by its stack. Waiting and the
-- scheduler are explicit, as lists of events. A text is the list of its bytes. Times are nanoseconds.
--
-- A schedule of `kothak.New` is a list of goroutine numbers. The slice of errors has no lock: its reads
-- and writes are steps of their own, and each is taken to be whole. Upper and lower case are those of
-- the ASCII letters.
--
-- Not modelled: metrics and traces, SQL repositories, the server and its configuration, clients of other
-- services, sessions, the rest of the request builder, the fake of NSQ for tests, and the generated
-- mocks. They are wiring, SQL text, calls of other code, or, like the sessions, do not compile as they stand.
pub mod Base
pub mod Text
pub mod Xerrors
pub mod Response
pub mod Nsq
pub mod Effects
pub mod Redis
pub mod Otp
pub mod ObjectStorage
pub mod Image
pub mod State
pub mod Router
pub mod Http
pub mod Log
pub mod Sqldb
pub mod Defaults
pub mod Kothak
pub mod Notification
pub mod Randgen
