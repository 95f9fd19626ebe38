-- ===== src/Es10b/Completes.antt =====
-- `authenticate_server`, `prepare_download` and `load_bound_profile_package` of app/es10/es10b.py: the
-- calls of an honest server complete.
use euicc_simulator.Prelude.{
  is_in, ◌≡◌, refl, ap, ◌∙◌, true, false, not, ◌&&◌, Option, none, some, [], Bytes, Text, arith,
  default, bytes_eq, bytes_eq_refl, truthy, length, leb,
}
use euicc_simulator.Prelude.Int.{pos, ltb_ℤ}
use euicc_simulator.Prelude.Outcome.{returned}
use euicc_simulator.Crypto.CertValidator.{trusted}
use euicc_simulator.Euicc.{
  SessionKeys, DownloadSession, EuiccState, allocate_isdp_aid, ext_card_resource_bytes,
}
use euicc_simulator.Es10b.Engine.{
  ServerSigned1, SmdpSigned2, CtxParams, EuiccInfo2, EuiccSigned1, EuiccSigned2, ResultData, Engine,
}
use euicc_simulator.Es10b.Info.{get_euicc_info2}
use euicc_simulator.Es10b.Authenticate.{
  auth_ok, unwrapped, server_tbs, required, echo_ctx, authenticated_session, respond_auth,
  complete_auth, check_server, check_certificate, authenticate_in,
}
use euicc_simulator.Es10b.Prepare.{
  download_ok, given_hash, accepts, derive, with_otpk, complete_prepare, prepare_in,
}
use euicc_simulator.Es10b.Load.{
  Bpp, installed, decrypted_elements, estimated_size, new_profile, with_installed, install,
  check_room, load_in,
}

-- The session that a success of `authenticate_server` leaves.
abbrev pub signed_session : Bytes × Text × Bytes → Bytes → Bytes → DownloadSession → DownloadSession
signed_session fields key signature d = record (authenticated_session fields key d) {
  euicc_signature1 = signature;
}

-- The session that a success of `prepare_download` leaves.
abbrev pub prepared_session :
    Bytes × Bytes → Bytes → SessionKeys → DownloadSession → DownloadSession
prepared_session pair otpk keys d = record (with_otpk pair d) {
  smdp_otpk_public = otpk;
  session_keys = some keys;
  prepared = true;
}

-- The session does not show in euiccInfo2.
get_euicc_info2-session :
    (e : Engine) (o : Option DownloadSession) (s : EuiccState)
    → get_euicc_info2 e (record s { active_session = o }) ≡ get_euicc_info2 e s
unfolding get_euicc_info2 ext_card_resource_bytes
get_euicc_info2-session e o s = refl

module _ (e : Engine) where
  pub authenticate_in_completes :
      (signed : ServerSigned1) (signature pkid certificate : Bytes) (ctx : CtxParams)
      (raw : Option Bytes) (key tbs : Bytes) (fields : Bytes × Text × Bytes) (info : EuiccInfo2)
      (encode : EuiccSigned1 → Bytes) (d : DownloadSession) (s : EuiccState)
      → is_in (unwrapped pkid) e.trusted_ci_pkids ≡ true
      → e.validate_server_cert certificate (unwrapped pkid) ≡ trusted key
      → server_tbs e signed raw ≡ some tbs
      → e.verify key signature tbs ≡ true
      → signed.euicc_challenge ≡ some d.euicc_challenge
      → required signed ≡ some fields
      → get_euicc_info2 e s ≡ some info
      → ((x : EuiccSigned1) → e.encode_euicc_signed1 x ≡ some (encode x))
      → (r : EuiccSigned1) × (der : Bytes) × (s1 : Bytes) × (authenticate_in e signed signature pkid
            certificate ctx raw
            (some d)
            s
          ≡ (
            returned (auth_ok r der s1 e.euicc_certificate e.eum_certificate),
            record s { active_session = some (signed_session fields key s1 d) },
          ))
  unfolding check_certificate check_server complete_auth respond_auth
  authenticate_in_completes signed signature pkid certificate ctx raw key tbs fields info encode d s
        known good made holds echoed all told encodes =
      let r : EuiccSigned1 = record {
        transaction_id = fields.0;
        server_address = fields.1;
        server_challenge = fields.2;
        euicc_info2 = info;
        ctx_params1 = echo_ctx ctx;
      } in
      let s' = record s { active_session = some (authenticated_session fields key d) } in
      let same : bytes_eq (default signed.euicc_challenge []) d.euicc_challenge ≡ true =
        ap (λ c. bytes_eq (default c []) d.euicc_challenge) echoed
        ∙ bytes_eq_refl d.euicc_challenge in
      let told' = get_euicc_info2-session e (some (authenticated_session fields key d)) s ∙ told in
      (
        r,
        encode r,
        e.sign e.private_key (encode r),
        rw
            (
              check_certificate,
              known,
              good,
              check_server,
              made,
              holds,
              same,
              complete_auth,
              all,
              respond_auth,
              told',
              encodes r,
            )
            refl,
      )

  complete_prepare_completes :
      (tid otpk : Bytes) (hash_cc : Option Bytes) (pair : Bytes × Bytes) (keys : SessionKeys)
      (encode : EuiccSigned2 → Bytes) (d : DownloadSession) (s : EuiccState)
      → truthy otpk ≡ true
      → e.derive_session_keys pair.0 otpk tid ≡ some keys
      → ((x : EuiccSigned2) → e.encode_euicc_signed2 x ≡ some (encode x))
      → (r : EuiccSigned2) × (s2 : Bytes) × (der : Bytes) × (complete_prepare e tid otpk hash_cc
            pair d s
          ≡ (
            returned (download_ok r s2 der),
            record s { active_session = some (prepared_session pair otpk keys d) },
          ))
  unfolding complete_prepare derive
  complete_prepare_completes tid otpk hash_cc pair keys encode d s given derived encodes =
      let r : EuiccSigned2 = record {
        transaction_id = tid;
        euicc_otpk = pair.1;
        hash_cc = given_hash hash_cc;
      } in
      (
        r,
        e.sign e.private_key (encode r),
        encode r,
        rw (complete_prepare, derive, given, derived, encodes r) refl,
      )

  pub prepare_in_completes :
      (signed : SmdpSigned2) (signature : Bytes) (hash_cc certificate raw : Option Bytes)
      (pair : Bytes × Bytes) (tid otpk : Bytes) (keys : SessionKeys) (encode : EuiccSigned2 → Bytes)
      (d : DownloadSession) (s : EuiccState)
      → d.authenticated ≡ true
      → signed.transaction_id ≡ some tid
      → d.transaction_id ≡ tid
      → signed.bpp_euicc_otpk ≡ some otpk
      → accepts e signature certificate raw d ≡ returned true
      → truthy otpk ≡ true
      → e.derive_session_keys pair.0 otpk tid ≡ some keys
      → ((x : EuiccSigned2) → e.encode_euicc_signed2 x ≡ some (encode x))
      → (r : EuiccSigned2) × (s2 : Bytes) × (der : Bytes) × (prepare_in e signed signature hash_cc
            certificate raw pair
            (some d)
            s
          ≡ (
            returned (download_ok r s2 der),
            record s { active_session = some (prepared_session pair otpk keys d) },
          ))
  unfolding prepare_in
  prepare_in_completes signed signature hash_cc certificate raw pair tid otpk keys encode d s auth
        named same sent good given derived encodes =
      let (r, s2, der, done) =
        complete_prepare_completes tid otpk hash_cc pair keys encode d s given derived encodes in
      let matches : bytes_eq tid d.transaction_id ≡ true =
        ap (bytes_eq tid) same ∙ bytes_eq_refl tid in
      let t1 : default signed.transaction_id [] ≡ tid = ap (λ o. default o []) named in
      let t2 : default signed.bpp_euicc_otpk [] ≡ otpk = ap (λ o. default o []) sent in
      let passed : prepare_in e signed signature hash_cc certificate raw pair (some d) s
          ≡ complete_prepare e tid otpk hash_cc pair d s =
        simp (t1, t2, auth, matches, good) in
      (r, s2, der, passed ∙ done)

  pub load_in_completes :
      (bpp : Bpp) (random elements aid : Bytes) (encode : ResultData → Bytes) (d : DownloadSession)
      (s : EuiccState)
      → d.prepared ≡ true
      → bpp.transaction_id ≡ d.transaction_id
      → decrypted_elements e d.session_keys bpp ≡ some elements
      → ltb_ℤ s.free_nvm (pos (estimated_size elements)) ≡ false
      → leb s.max_profiles (length s.profiles) ≡ false
      → allocate_isdp_aid s ≡ some aid
      → ((x : ResultData) → e.encode_result_data x ≡ some (encode x))
      → (r : ResultData) × (signature : Bytes) × (load_in e bpp random (some d) s ≡ (
        returned (installed r signature),
        record (with_installed
            (new_profile bpp (default bpp.iccid random) aid d.server_address elements)
            s) { active_session = none },
      ))
  unfolding load_in check_room install
  load_in_completes bpp random elements aid encode d s ready named made enough room allocated
        encodes =
      let p = new_profile bpp (default bpp.iccid random) aid d.server_address elements in
      let r : ResultData = record {
        transaction_id = d.transaction_id;
        seq_number = (with_installed p s).notification_seq;
        notification_address = d.server_address;
        iccid = default bpp.iccid random;
        aid = aid;
      } in
      let same : (truthy bpp.transaction_id && not (bytes_eq bpp.transaction_id d.transaction_id))
          ≡ false =
        rw named (ground (arith, bytes_eq_refl d.transaction_id)) in
      (
        r,
        e.sign e.private_key (encode r),
        rw (load_in, ready, same, made, check_room, enough, room, allocated, install, encodes r)
            refl,
      )
