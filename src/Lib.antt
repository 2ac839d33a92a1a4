-- ===== src/Lib.antt =====
-- emulate: local emulators of hosted APIs, in Go. Every emulator keeps its state in the record
-- store, is reached through the HTTP router and stores bodies in the asset store. The AWS
-- emulators find out who sends a request and, for S3, what it asks for; SQS and SNS are modelled
-- whole, over the queues that they share.
--
-- Parts and files:
--   * internal/core/store/store.go, the record store. Store/Value: records and the values in them
--     (`Record`, `numericID`, `indexKey`, `cloneRecord`, `cloneValue`). Store/Index:
--     `addToIndexes`, `removeFromIndexes`, `sortedIDs`. Store/Fields: `normalizeFields`,
--     `sameStrings`. Store/Collection: `newCollection`, `Insert`, `Get`, `Update`, `UpdateFunc`,
--     `Delete`, `All`, `FindBy`, `Count`, `Clear`, each a function from a collection to what it
--     returns and the collection afterwards. Store/Snapshot: `Snapshot` and `Restore`.
--     Store/Database: the named collections, which stand at addresses since they are shared, and
--     the data beside them (`Collection`, `SetData`, `GetData`, `Reset`, `Snapshot`, `Restore`).
--   * internal/core/http/router.go, the router. Http/Path: `normalizePath`, `splitPath`,
--     `stripPrefix`, `hasPathPrefix`. Http/Matching: `parseSegments` and `matchSegments`, whose map
--     of parameters is passed along. Http/Router: `Handle`, `Mount`, `Use`, `chain`, `requestID`,
--     `match` and `ServeHTTP`; a handler is a function from its context to a response.
--   * internal/core/assets/store.go, the asset store. Assets: `PutBytes`, `Get`, `Bytes`, `Delete`,
--     `Reset`, `Count`, `List`, `Snapshot`, `FullSnapshot`, `RestoreFullSnapshot`.
--   * internal/services/aws/auth. Auth/SigV4: sigv4.go. Auth/Credentials: credentials.go.
--     Auth/Resolve: mode.go and resolve.go.
--   * internal/services/aws/protocols/s3.go. S3: `ParseS3RESTRequest` and `DetectS3Action`.
--     errors.go beside it. Protocols/Errors: an answer, whose body is the value that is marshalled,
--     and `SerializeXMLError`, `SerializeRESTXMLError` and `SerializeJSONError`.
--   * internal/services/aws/sqs/handler.go, queues and messages in two collections of the record
--     store. Sqs/Fields: how records are read. Sqs/Params: numbered parameters. Sqs/Input:
--     `jsonParams`. Sqs/State: the handler's fields and what it draws from outside. Sqs/Messages:
--     `enqueueMessage`, `reserveVisibleMessage`, the loop of `receiveMessage`,
--     `deleteReceiptHandle`, `changeReceiptVisibility`. Sqs/Attributes: the attributes of queues
--     and messages. Sqs/Batch: `validateBatchRequest` and the loops over entries. Sqs/Response:
--     XML and JSON answers. Sqs/Queues and Sqs/Delivery: the operations on queues and on messages,
--     each with a child Json for the other protocol, which repeats the code. Sqs/Handler: `Handle` and `handleJSON`, whose
--     cases are a table.
--   * internal/services/aws/sns/handler.go, topics and subscriptions, which writes into the queues'
--     messages. Sns/Fields and Sns/Params: records, tags and parameters. Sns/State: the collections
--     and how they are searched. Sns/Topics with its child Tagging, Sns/Subscriptions and
--     Sns/Publish: the operations, the last with `deliverToSubscription`. Sns/Envelope: `sqsBody`.
--     Sns/Handler: `Handle`, and with the child Shared the requests to both handlers over one
--     record store.
--   * Prelude: the shared types, orders, maps as lists of entries, sorting, and Go's `int`.
--   * Tests: the theorems at concrete inputs.
--
-- A Go map is a list of entries whose order stands for the order of `range`; the theorems hold for
-- every order. An `int` has 64 bits and wraps around. What the Go library computes is a parameter:
-- printing and number parsing (`Formats`), regular expressions and unescaping (`Engine`), digests
-- and times (`Platform`), text functions (`Strings`, `Urls`). The clock and the generators of the
-- SQS and SNS handlers are functions of the number of draws (`Sources`), and a request counts one
-- draw for the readings that belong together. Loops are recursion on their data. The loops over
-- numbered parameters of these handlers have fuel, one round more than there are parameters.
--
-- Not modelled: the JSON of snapshots, the mutexes (each method holds its own throughout), the
-- recovery from panics and the writing of responses in the router, and the handlers of the other
-- emulators. Of the SQS and SNS handlers the address of the server, the random ids and the JSON
-- codec are parameters.
pub mod Prelude
pub mod Store
pub mod Http
pub mod Assets
pub mod Auth
pub mod S3
pub mod Protocols
pub mod Sqs
pub mod Sns
pub mod Tests
