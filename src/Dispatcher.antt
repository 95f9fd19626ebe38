-- ===== src/Dispatcher.antt =====
-- app/services/apdu_dispatcher.py: ES10 commands from their TLV to the handlers and back.
-- Codec: the ASN.1 codec. Es10b, Es10c, Iot: the handlers. Routes: the choice by tag, and
-- `dispatch`. Requests: the call that each tag stands for. The other modules are about `dispatch`.
pub mod Codec
pub mod Es10b
pub mod Es10c
pub mod Iot
pub mod Routes
pub mod Requests
pub mod Follows
pub mod Refines
pub mod Responses
pub mod Failures
