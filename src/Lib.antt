-- ===== src/Lib.antt =====
-- Verification of the Go key management service: a gRPC service that encrypts and decrypts under a
-- master key, an HTTP gateway before it, a job that encrypts the cards of one database into another,
-- and two small clients.
--
-- Parts of the program and where they are modelled:
--   Base, Go          shared types and lemmas, and what the program uses of Go: errors, texts, base64,
--                     hexadecimal, the random source and AES-GCM. `Result` has a third constructor for
--                     a panic. AES itself is a parameter (`Aes`, with the contract `IsAead`); the
--                     tests on lengths around it are written out. Base.Runs has runs of any step
--                     relation, with invariants and a measure of the work that is left.
--   Kms.Format        internal/kms/encryption_format.go: `CombineNonceAndCiphertext` and
--                     `SplitNonceAndCiphertext`.
--   Kms.File          internal/kms/crypto.go, `FileManager`; Kms.Trim is its `bytesTrimSpace`.
--   Kms.Manager       the interface `Manager` of internal/kms/manager.go with its contract.
--   Kms.Hsm           internal/kms/hsm.go: the manager over a hardware module.
--   Kms.Pkcs11        internal/kms/hsm_pkcs11.go: the provider over a PKCS#11 token. The token library is a
--                     parameter (`Ctx`, with the contract `IsToken` on the phases of a token, and in
--                     Kms.Pkcs11.Contract one on what it encrypts).
--   Kms.Aws           internal/kms/hsm_aws.go: the provider over AWS KMS, whose library is an argument.
--   Kms.Azure         internal/kms/hsm_azure.go: the provider over Azure Key Vault, likewise. Neither file
--                     compiles as it stands; the model is what they say apart from that.
--   Kms.Config        internal/kms/manager.go, the stubs of the default build and the choice in
--                     cmd/kms-server/main.go; Kms.Config.Built is what any build returns, and
--                     Kms.Config.Hardware the build with the tag pkcs11.
--   Auth              internal/auth/jwt.go: the interceptor and the issue of tokens. The JWT library is
--                     a parameter (`Jwt`, with the contract `IsJwt`).
--   Proto, Client     the messages of proto/kms.pb.go and the clients of proto/kms_grpc.pb.go, with what
--                     their users rely on (`IsClient`, and for texts of bytes `IsByteClient`).
--   Server            internal/server; Server.Process is `Run` and the program of
--                     cmd/kms-server/main.go.
--   Connected         the service behind its own client, and in Connected.Gateway behind the HTTP gateway:
--                     the parts above put together.
--   Http              cmd/kms-http-server/main.go; Http.Batch is the handler of batches, Http.Batch.Pool
--                     its workers as a step relation over all interleavings, Http.Routes the routes,
--                     the middleware and `main`. The router is a parameter (`Router`, with the
--                     contract `IsRouter`).
--   Etl               cmd/etl-worker/main.go: Etl.Encrypt the workers, Etl.Writer and Etl.Insert the
--                     batches, Etl.Pipeline the goroutines of `runETL` as a step relation, Etl.Verify the
--                     verification of a card, Etl.Pairing the stored rows by their identifier,
--                     Etl.Pairing.Parallel the goroutines as a step relation, Etl.Matches, Etl.Mask and Etl.Report the figures and
--                     the workbook, Etl.Job the configuration, the token, the modes and the whole job.
--   TestClient        cmd/test-client/main.go: the commands and their arguments.
--   Example           examples/decrypt-single-field.go: stored rows, decrypted and shown.
--   Fixtures, */Tests small instances of the parameters, with proofs that they keep their contracts, and
--                     examples.
--
-- State: an operation with effects is a function of a `World`, which holds the bytes that the random
-- source will deliver and the state of the device or database behind the code. The managers and
-- servers are records with the fields of the structs. Goroutines are step relations on a record of
-- the channels, the goroutines and the shared counters; a step is one send, one receive or one call, with what the
-- goroutine does before its next one.
--
-- Bounds and fuel: the two loops of `bytesTrimSpace` run on fuel, the length of the text, and the
-- results about them hold for every text, so the fuel is enough. Counters and `uint` wrap at 2 ^ 64,
-- written out. All other loops are recursions on a list. Base64 text is decoded with the line breaks
-- that the Go decoder skips. The channel of a batch is modelled as full before a worker starts: it has
-- room for every item, so a worker that starts earlier only waits. The two channels of `runETL` hold
-- 100 items each, it has twenty workers and batches of 500 rows; the verification has ten goroutines
-- at a time, and a channel with room for every record. Every step of these relations takes from a
-- measure of work, so that every run ends: 6 for each row that is read, 5 for each card that is
-- verified and 2 for each item of a batch.
--
-- Not modelled: the locks (each manager's operations are atomic in the model), logs, flags and debug
-- prints, the network and its timeouts (they show as errors of a call), JSON and the text that a fatal
-- error adds to its cause, the generated marshalling and dispatch, the reflection service, the
-- cancellation of a verification and its limits of ten, fifteen and thirty minutes (the limit on each
-- card is a step), the database cursors, the styles and widths of the workbook, `manualDecodeExample`,
-- which nothing calls, and the capacity of a slice that `CombineNonceAndCiphertext` appends to.
pub mod Base
pub mod Go
pub mod Kms
pub mod Auth
pub mod Proto
pub mod Client
pub mod Server
pub mod Http
pub mod Etl
pub mod Connected
pub mod TestClient
pub mod Example
pub mod Fixtures
