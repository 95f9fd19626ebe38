-- ===== src/Dispatcher/Responses.antt =====
-- What `dispatch` of app/services/apdu_dispatcher.py sends back.
use euicc_simulator.Prelude.{
  ℕ, ◌/◌, ◌%◌, ◌<◌, ◌≡◌, ◌≢◌, inl, refl, ap, Bool, true, false, ◌&&◌, Option, none, some, List, [],
  ◌∷◌, ◌++◌, Bytes, Text, arith, ltb, ◌==◌, length,
}
use euicc_simulator.Prelude.Outcome.{Outcome, returned, raised}
use euicc_simulator.Euicc.{EuiccState}
use euicc_simulator.Es10b.Engine.{Engine}
use euicc_simulator.Services.Tags.{command_name}
use euicc_simulator.Services.Tlv.{
  identify_command, tag_bytes, length_bytes, build_tlv, build_response_apdu,
}
use euicc_simulator.Services.RoundTrip.{identify-build_tlv}
use euicc_simulator.Dispatcher.Codec.{Codec, Handled}
use euicc_simulator.Dispatcher.Routes.{
  Route, branches, route_in, Draws, follow_route, execute, concluded, dispatch,
}

-- Every tag of a table begins with 0xBF.
abbrev all_two : List (ℕ × Route) → Bool
all_two [] = true
all_two ((tag, route) ∷ rest) = (tag / 256 == 0xBF) && all_two rest

route_in_two :
    (tag : ℕ) (table : List (ℕ × Route)) (route : Route)
    → all_two table ≡ true
    → route_in tag table ≡ some route
    → tag / 256 ≡ 0xBF
unfolding route_in
route_in_two tag [] route all h = absurd (cc)
route_in_two tag ((t, r) ∷ rest) route all h = ground (arith, route_in_two tag rest route)

response_tag :
    (c : Codec) (e : Engine) (drawn : Draws) (tag : ℕ) (o : Option Route) (inner response : Bytes)
    (s t : EuiccState)
    → route_in tag branches ≡ o
    → follow_route c e drawn o inner s ≡ (returned (some response), t)
    → tag / 256 ≡ 0xBF
response_tag c e drawn tag none inner response s t r h = absurd (cc)
response_tag c e drawn tag (some route) inner response s t r h =
    route_in_two tag branches route refl r

execute_tag :
    (c : Codec) (e : Engine) (drawn : Draws) (tag : ℕ) (inner response : Bytes) (s t : EuiccState)
    → execute c e drawn tag inner s ≡ (returned (some response), t)
    → tag / 256 ≡ 0xBF
unfolding execute
execute_tag c e drawn tag inner response s t h =
    response_tag c e drawn tag (route_in tag branches) inner response s t refl h

build_response_apdu-some :
    (tag : ℕ) (response : Bytes)
    → tag / 256 ≡ 0xBF
    → (apdu : Bytes) × (build_response_apdu tag response ≡ some apdu)
unfolding build_response_apdu build_tlv tag_bytes
build_response_apdu-some tag response h =
    let big : ltb 0xFF tag ≡ true = ground arith in
    let fits : ltb tag 0x10000 ≡ true = ground arith in
    (
      tag / 256 ∷ tag % 256 ∷ length_bytes (length response) ++ response ++ (0x90 ∷ 0x00 ∷ []),
      rw (big, fits) refl,
    )

-- A handled command with its tag ends in a response.
concluded_returns :
    (tag : ℕ) (h : Handled)
    → ((response : Bytes) → h.0 ≡ returned (some response) → tag / 256 ≡ 0xBF)
    → (apdu : Bytes) × ((concluded tag h).0 ≡ returned apdu)
concluded_returns tag (raised, s) two = (_, refl)
concluded_returns tag (returned none, s) two = (_, refl)
concluded_returns tag (returned (some response), s) two =
    let (apdu, made) = build_response_apdu-some tag response (two response refl) in
    (apdu, rw made refl)

-- A command whose tag and length can be read, and whose tag is not zero, gets a response: no
-- exception of a decoder, a handler or an encoder leaves `dispatch`.
pub dispatch_returns :
    (c : Codec) (e : Engine) (drawn : Draws) (eid name : Text) (command inner : Bytes) (tag : ℕ)
    (s : EuiccState)
    → identify_command command ≡ some (tag, name, inner)
    → tag ≢ 0
    → (apdu : Bytes) × ((dispatch c e drawn eid command s).0 ≡ returned apdu)
unfolding dispatch
dispatch_returns c e drawn eid name command inner tag s h ne =
    let known : (tag == 0) ≡ false = ground arith in
    rw (h, known)
      (concluded_returns tag (execute c e drawn tag inner s) (λ response ok.
        execute_tag c e drawn tag inner response s (execute c e drawn tag inner s).1
          (ap (λ (o : Outcome (Option Bytes)). (o, (execute c e drawn tag inner s).1)) ok)))

-- Where the handler of a command returns a response of less than 2^24 bytes, `dispatch` returns it in
-- the command's own tag: `identify_command` reads the tag and the response back, before the status.
pub dispatch_tagged :
    (c : Codec) (e : Engine) (drawn : Draws) (eid name : Text) (command inner response : Bytes)
    (tag : ℕ) (s t : EuiccState)
    → identify_command command ≡ some (tag, name, inner)
    → execute c e drawn tag inner s ≡ (returned (some response), t)
    → length response < 16777216
    → (apdu : Bytes) × (dispatch c e drawn eid command s ≡ (returned apdu, t))
      × (identify_command apdu ≡ some (tag, command_name tag, response))
unfolding dispatch build_response_apdu
dispatch_tagged c e drawn eid name command inner response tag s t h ran size =
    let two = execute_tag c e drawn tag inner response s t ran in
    let known : (tag == 0) ≡ false = ground arith in
    let (tlv, made, read) = identify-build_tlv tag response (inl two) size in
    (tlv ++ (0x90 ∷ 0x00 ∷ []), rw (h, known, ran, made) refl, read (0x90 ∷ 0x00 ∷ []))
