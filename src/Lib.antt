-- ===== src/Lib.antt =====
-- The eUICC simulator: the state of a virtual eUICC, the ES10 handlers that change it, and the APDU
-- transport that carries commands to them.
--
-- Parts, and the files that model them (paths of the repository on the left):
--
--   app/models/euicc.py          Euicc: the state record and its methods; Euicc/Profiles: a profile.
--                                Euicc/Valid: the invariant.
--   app/es10/es10c.py            Es10c: profile management. Es10c/Reset: the memory reset.
--                                Es10c/Enable, Delete, Memory: what the operations do.
--   app/es10/es10a.py            Es10a: the configured addresses.
--   app/es10/es10b.py            Es10b: Engine (what it calls), Info, Authenticate, Prepare, Load,
--                                Notifications; Handler (its Engine from the parts of
--                                app/crypto). Es10b/Sessions, Frame, Authenticated, Responds, Prepared,
--                                Installs, Completes, Opens, Queue: what the operations do.
--   app/crypto/scp03t.py         Crypto/Scp03t. Crypto/Padding, Channel: padding and blocks.
--   app/es10/es10b_iot.py        Es10bIot: the eIM associations. Es10bIot/Package: eUICC packages.
--                                Es10bIot/Eims, Register, Psmo, Replay: what the operations do.
--   app/transport/apdu_codec.py  Transport/ApduCodec. Transport/Frames: framing against decoding.
--   app/transport/tcp_protocol.py  Transport/TcpProtocol. Transport/Stream: whole streams.
--   app/transport/tcp_server.py  Transport/TcpServer. Transport/Session: a command from its bytes to
--                                the dispatcher.
--   app/crypto/cert_validator.py  Crypto/CertValidator. Crypto/Validation: what it accepts.
--   app/crypto/ecdsa_engine.py   Crypto/EcdsaEngine. Crypto/Signatures: signatures and session keys.
--   app/crypto/certificates.py   Crypto/Certificates (generation, files), over Certificates/Fields; Initialize
--                                (modes, trusted CIs).
--                                Crypto/Chain: the chain and a later start.
--   app/services/apdu_dispatcher.py  Dispatcher: Codec (what it asks of the ASN.1 codec), Es10b, Es10c, Iot
--                                (the handlers), Routes. Dispatcher/Requests: the table of the calls that
--                                tags stand for. Dispatcher/Follows, Refines, Responses, Failures: what
--                                the handlers and `dispatch` do.
--   app/services/euicc_manager.py  Manager, over Manager/Initial (the first state). Manager/Iccid, Entries,
--                                Instances, Created: what the operations do.
--   app/models/database.py       Database, over an interface of tables; Database/Rows: the rows of them.
--                                Database/Versions, Saved: what is read back; Commits: how saving ends.
--   app/services/laravel_seeder.py  Seeder. Seeder/Kept: what a seeding leaves.
--   app/main.py                  App: setup, end and the APDU endpoint; App/Endpoints, Info: the others.
--                                App/Server: the TCP server in the application, with the clients' reads
--                                and the requests as events; App/Server/Validity, Isolation: what they
--                                do. App/Lifecycle: from the start to the end; App/Ports: which
--                                eUICC a port reaches; App/Restart: a start after
--                                a save; App/Paths: a command over HTTP and over TCP.
--   app/config.py                App/Config.
--   app/services/apdu_handler.py  Services: Tags and Tlv (TLV coding), ApduHandler (the processor).
--                                Services/RoundTrip: coding against decoding; Segments: the processor on
--                                the segments of a command.
--   app/services/asn1_codec.py   Services/Asn1Codec, over Base64 (the standard library's). Transfer: base64
--                                against its decoding.
--
-- Simulator puts the calls of app/es10 that change state together as the steps of one machine;
-- Simulator/Validity, Authenticity and Reachability are about its steps and its reachable states.
-- Simulator/Trust is about the key that a profile comes under, over the certificates.
-- Simulator/Footprint, Memory, Budgets and CardResource follow the memory through the calls, Download a
-- whole download. Simulator/Serve is the client loop of the TCP server over the dispatcher.
--
-- Prelude holds shared names, Tests runs and instances of the theorems.
--
-- How the code is read. `bytes` and `str` are lists of numbers, byte values and code points. Python's
-- unbounded integers are natural numbers where the code keeps them so, and `Prelude.Int.ℤ` for the free
-- memory and the eIM counters, which can fall below zero. The objects of a list are distinct, so a
-- reference to one is its position (Prelude/Refs): the `for` loops that return a match are `find_ref`,
-- an assignment to a field is `update_at`. A handler takes the state and gives its result with the new
-- state; a result dictionary of one number is that number. A call that may raise gives an
-- `Outcome`, or an `Option` where only a pure conversion raises, and the state stands beside it. Logging
-- is left out. `os.urandom` and new key pairs enter as arguments.
--
-- What is a parameter. The `cryptography` package: the ciphers are the fields of
-- Crypto.Scp03t.Ciphers, the certificates those of Crypto.CertValidator.X509 and
-- Crypto.Certificates.CertLib, the curve those of Crypto.EcdsaEngine.Ecc. The ASN.1 codec:
-- Dispatcher.Codec.Codec, a decoder for each request and an encoder. The ES10b handler takes an
-- Engine: the PKI, the validation of certificates, the signatures and the encoders of what is
-- signed, which Es10b/Handler fills over Es10b.Handler.Libraries. The connection handler takes the
-- dispatcher, which Simulator/Serve gives it. The tables
-- of SQLAlchemy are Database.Tables, with the laws of reading after writing. What one command draws
-- at random is Dispatcher.Routes.Draws. What asn1tools makes of the schema is
-- Services.Asn1Codec.Schema. Not modelled: the YAML parser and the validation of pydantic, the JSON of
-- the endpoints, the HTTP requests, the sockets, and how asyncio chooses between what is ready: the
-- order of events is any.
--
-- Bounds and fuel. `extract` takes the length of the buffer as fuel, and every round takes four
-- bytes at least (Transport.Stream.feed_exhausts). `hex_digits` and `decimal_digits` take a number
-- above the one printed. `segment_response` takes the number of bytes
-- and takes one at least in a round.
pub mod Prelude
pub mod Euicc
pub mod Crypto
pub mod Es10a
pub mod Es10b
pub mod Es10bIot
pub mod Es10c
pub mod Services
pub mod Simulator
pub mod Transport
pub mod Dispatcher
pub mod Manager
pub mod Database
pub mod App
pub mod Seeder
pub mod Tests
