-- ===== src/Simulator/Download.antt =====
-- The profile download of app/es10/es10b.py from the challenge to the installation, with an honest
-- server.
use euicc_simulator.Prelude.{
  is_in, ℕ, zero, suc, ◌+◌, ◌<◌, ◌≡◌, refl, ap, ◌∙◌, true, false, Option, none, some, [], ◌∷◌, ◌++◌,
  Bytes, Text, arith, codes, fromhex, default, truthy, length, leb,
}
use euicc_simulator.Prelude.Int.{ℤ, pos, ◌≤ℤ◌, ltb_ℤ}
use euicc_simulator.Prelude.Outcome.{returned}
use euicc_simulator.Crypto.CertValidator.{trusted}
use euicc_simulator.Euicc.{
  disabled, ProfileSlot, SessionKeys, DownloadSession, EuiccState, allocate_isdp_aid, format_02x,
  new_euicc, add_notification,
}
use euicc_simulator.Es10b.Engine.{
  ServerSigned1, SmdpSigned2, CtxParams, EuiccSigned1, EuiccSigned2, ResultData, Engine,
}
use euicc_simulator.Es10b.Info.{fresh_session, get_euicc_challenge}
use euicc_simulator.Es10b.Authenticate.{
  auth_ok, unwrapped, server_tbs, required, authenticate_server,
}
use euicc_simulator.Es10b.Prepare.{download_ok, certificate_key, accepts, prepare_download}
use euicc_simulator.Es10b.Load.{
  Bpp, installed, decrypted_elements, estimated_size, new_profile, with_installed,
  load_bound_profile_package,
}
use euicc_simulator.Es10b.Completes.{
  signed_session, prepared_session, authenticate_in_completes, prepare_in_completes,
  load_in_completes,
}
use euicc_simulator.Simulator.{challenge}
use euicc_simulator.Simulator.Reachability.{Reachable, step}
use euicc_simulator.Simulator.CardResource.{Reachable-features, Reachable-get_euicc_info2}

-- The AID of the profile after the first `n`.
abbrev isdp_aid_after : ℕ → Bytes
isdp_aid_after n =
    0xA0
    ∷ 0
    ∷ 0
    ∷ 5
    ∷ 0x59
    ∷ 0x10
    ∷ 0x10
    ∷ 0xFF
    ∷ 0xFF
    ∷ 0xFF
    ∷ 0xFF
    ∷ 0x89
    ∷ 0
    ∷ 0
    ∷ (n + 1)
    ∷ 0
    ∷ []

aid_fromhex :
    (n : ℕ)
    → n < 8
    → fromhex (codes "A0000005591010FFFFFFFF890000" ++ (format_02x (n + 1) ++ codes "00"))
      ≡ some (isdp_aid_after n)
unfolding fromhex format_02x
aid_fromhex zero h = refl
aid_fromhex (suc zero) h = refl
aid_fromhex (suc (suc zero)) h = refl
aid_fromhex (suc (suc (suc zero))) h = refl
aid_fromhex (suc (suc (suc (suc zero)))) h = refl
aid_fromhex (suc (suc (suc (suc (suc zero))))) h = refl
aid_fromhex (suc (suc (suc (suc (suc (suc zero)))))) h = refl
aid_fromhex (suc (suc (suc (suc (suc (suc (suc zero))))))) h = refl
aid_fromhex (suc (suc (suc (suc (suc (suc (suc (suc n)))))))) h = absurd (omega arith)

allocate_isdp_aid-some :
    (s : EuiccState)
    → length s.profiles < 8
    → allocate_isdp_aid s ≡ some (isdp_aid_after (length s.profiles))
unfolding allocate_isdp_aid
allocate_isdp_aid-some s h = aid_fromhex (length s.profiles) h

ltb-from_le : (a : ℤ) (n : ℕ) → pos n ≤ℤ a → ltb_ℤ a (pos n) ≡ false
ltb-from_le a n h = ground arith

leb-from_lt : (m n : ℕ) → m < n → leb n m ≡ false
leb-from_lt m n h = ground arith

-- A certificate of the SM-DP+ that validates, and its signature over the request and the signature of
-- the eUICC, are accepted.
accepts_honest :
    (e : Engine) (signature certificate raw key : Bytes) (d : DownloadSession)
    → truthy raw ≡ true
    → certificate_key e (some certificate) ≡ returned (some key)
    → e.verify key signature (raw ++ ((0x5F ∷ 0x37 ∷ 0x40 ∷ []) ++ d.euicc_signature1)) ≡ true
    → accepts e signature (some certificate) (some raw) d ≡ returned true
unfolding accepts
accepts_honest e signature certificate raw key d given known holds =
    rw (accepts, given, known) (ap returned holds)

module _ (e : Engine) (eid : Text) where
  -- On every state that calls lead to from a new eUICC, a download with an honest server installs the
  -- profile. The server's certificate validates under a trusted CI identifier, its signatures verify,
  -- it returns the challenge, and its SM-DP+ signs over the eUICC's first signature and names the same
  -- transaction; the encoders and the derivation of the keys succeed; the package opens to the
  -- profile's elements; fewer than eight profiles are installed and the elements fit into the free
  -- memory. Then the challenge, the authentication, the preparation and the loading all succeed, and
  -- the last appends one profile, disabled, with the package's elements, and ends the session.
  pub download_installs :
      (signed : ServerSigned1) (signature pkid certificate : Bytes) (ctx : CtxParams)
      (raw : Option Bytes) (key tbs tid challenge_sent : Bytes) (address : Text)
      (signed2 : SmdpSigned2) (hash_cc : Option Bytes) (certificate2 raw2 key2 otpk : Bytes)
      (pair : Bytes × Bytes) (keys : SessionKeys) (smdp_sign : Bytes → Bytes) (bpp : Bpp)
      (drawn random elements : Bytes) (encode1 : EuiccSigned1 → Bytes)
      (encode2 : EuiccSigned2 → Bytes) (encode_result : ResultData → Bytes) (s : EuiccState)
      → Reachable e eid s
      → is_in (unwrapped pkid) e.trusted_ci_pkids ≡ true
      → e.validate_server_cert certificate (unwrapped pkid) ≡ trusted key
      → server_tbs e signed raw ≡ some tbs
      → e.verify key signature tbs ≡ true
      → signed.euicc_challenge ≡ some drawn
      → required signed ≡ some (tid, address, challenge_sent)
      → truthy raw2 ≡ true
      → certificate_key e (some certificate2) ≡ returned (some key2)
      → ((s1 : Bytes)
          → e.verify key2 (smdp_sign s1) (raw2 ++ ((0x5F ∷ 0x37 ∷ 0x40 ∷ []) ++ s1)) ≡ true)
      → signed2.transaction_id ≡ some tid
      → signed2.bpp_euicc_otpk ≡ some otpk
      → truthy otpk ≡ true
      → e.derive_session_keys pair.0 otpk tid ≡ some keys
      → bpp.transaction_id ≡ tid
      → decrypted_elements e (some keys) bpp ≡ some elements
      → length s.profiles < 8
      → pos (estimated_size elements) ≤ℤ s.free_nvm
      → ((x : EuiccSigned1) → e.encode_euicc_signed1 x ≡ some (encode1 x))
      → ((x : EuiccSigned2) → e.encode_euicc_signed2 x ≡ some (encode2 x))
      → ((x : ResultData) → e.encode_result_data x ≡ some (encode_result x))
      → (r1 : EuiccSigned1) × (der1 : Bytes) × (s1 : Bytes) × (t1 : EuiccState)
        × (r2 : EuiccSigned2) × (s2 : Bytes) × (der2 : Bytes) × (t2 : EuiccState) × (r : ResultData)
        × (s3 : Bytes) × (p : ProfileSlot) × (t : EuiccState) × (authenticate_server e signed
              signature pkid certificate ctx raw
              (get_euicc_challenge drawn s).1
            ≡ (returned (auth_ok r1 der1 s1 e.euicc_certificate e.eum_certificate), t1))
        × (prepare_download e signed2 (smdp_sign s1) hash_cc (some certificate2) (some raw2) pair t1
            ≡ (returned (download_ok r2 s2 der2), t2))
        × (load_bound_profile_package e bpp random t2 ≡ (returned (installed r s3), t))
        × (t.profiles ≡ s.profiles ++ p ∷ [])
        × (p.state ≡ disabled)
        × (p.iccid ≡ default bpp.iccid random)
        × (p.profile_data ≡ elements)
        × (t.active_session ≡ none)
  unfolding get_euicc_challenge authenticate_server prepare_download load_bound_profile_package
      add_notification new_euicc
  download_installs signed signature pkid certificate ctx raw key tbs tid challenge_sent address
        signed2 hash_cc certificate2 raw2 key2 otpk pair keys smdp_sign bpp drawn random elements
        encode1 encode2 encode_result s reached known good made holds echoed all given2 known2 signs
        named2 sent2 some_otpk derived named opened room fits encodes1 encodes2 encodes =
      let fields : Bytes × Text × Bytes = (tid, address, challenge_sent) in
      let d0 = fresh_session drawn in
      let s0 = record s { active_session = some d0 } in
      let (info, _, _, _, told, _, _, _, _, _) =
        Reachable-get_euicc_info2 e eid s0 (step (challenge drawn) s reached) in
      let (r1, der1, s1, ran1) =
        authenticate_in_completes e signed signature pkid certificate ctx raw key tbs fields info
          encode1 d0 s0 known good made holds echoed all told encodes1 in
      let d1 = signed_session fields key s1 d0 in
      let t1 = record s0 { active_session = some d1 } in
      let (r2, s2, der2, ran2) =
        prepare_in_completes e signed2 (smdp_sign s1) hash_cc (some certificate2) (some raw2) pair
          tid otpk keys encode2 d1 t1 refl named2 refl sent2
          (accepts_honest e (smdp_sign s1) certificate2 raw2 key2 d1 given2 known2 (signs s1))
          some_otpk derived encodes2 in
      let d2 = prepared_session pair otpk keys d1 in
      let t2 = record t1 { active_session = some d2 } in
      let places : s.max_profiles ≡ 8 =
        ap (λ f. f.max_profiles) (Reachable-features e eid s reached) in
      let aid = isdp_aid_after (length s.profiles) in
      let (r, s3, ran) =
        load_in_completes e bpp random elements aid encode_result d2 t2 refl named opened
          (ltb-from_le s.free_nvm (estimated_size elements) fits)
          (ap (λ n. leb n (length s.profiles)) places ∙ leb-from_lt (length s.profiles) 8 room)
          (allocate_isdp_aid-some t2 room) encodes in
      let p = new_profile bpp (default bpp.iccid random) aid address elements in
      (
        r1,
        der1,
        s1,
        t1,
        r2,
        s2,
        der2,
        t2,
        r,
        s3,
        p,
        record (with_installed p t2) { active_session = none },
        ran1,
        ran2,
        ran,
        refl,
        refl,
        refl,
        refl,
        refl,
      )
