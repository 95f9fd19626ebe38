-- ===== src/Services.antt =====
-- app/services/apdu_handler.py: TLV coding of ES10 commands and the APDU processor. Asn1Codec, Base64 and
-- Transfer are about app/services/asn1_codec.py.
pub mod Tlv
pub mod Tags
pub mod ApduHandler
pub mod RoundTrip
pub mod Segments
pub mod Base64
pub mod Transfer
pub mod Asn1Codec
