-- ===== src/Es10b/Installs.antt =====
-- `load_bound_profile_package` of app/es10/es10b.py: what an installation does to the state.
use euicc_simulator.Prelude.{
  ℕ, ◌+◌, ◌≡◌, ◌∙◌, sym, ◌≤◌, refl, ap, subst, true, false, not, ◌&&◌, Option, none, some, [], ◌∷◌,
  ◌++◌, inl, inr, Bytes, bytes_eq, default, arith, Option-cases, Bool-cases, truthy, bit, length,
  length-append, leb, sum_by-append,
}
use euicc_simulator.Prelude.Int.{pos, ltb_ℤ, ◌-ℤ◌, ◌+ℤ◌, ◌≤ℤ◌, eq_of_parts, +ℤ_parts, -ℤ_parts}
use euicc_simulator.Prelude.Outcome.{Outcome, returned, raised}
use euicc_simulator.Euicc.{
  disabled, enabled, state_eq, ProfileSlot, DownloadSession, EuiccState, is_enabled,
  allocate_isdp_aid, add_notification,
}
use euicc_simulator.Euicc.Valid.{IsValid, IsValid-add_notification, IsValid-with_session}
use euicc_simulator.Es10c.{profile_size}
use euicc_simulator.Es10b.Engine.{ResultData, Engine}
use euicc_simulator.Es10b.Load.{
  Bpp, LoadResult, installation_error, installed, decrypted_elements, estimated_size, new_profile,
  with_installed, install, check_room, load_in, load_bound_profile_package,
}
use euicc_simulator.Es10b.Sessions.{SessionIsValid}

with_installed-IsValid :
    (p : ProfileSlot) (s : EuiccState)
    → IsValid s
    → is_enabled p ≡ false
    → leb s.max_profiles (length s.profiles) ≡ false
    → IsValid (with_installed p s)
with_installed-IsValid p s v off room =
    IsValid-add_notification _ p.notification_address (some p.iccid) _ record {
      one_enabled =
          let c = v.one_enabled in
          omega (arith, c, sum_by-append (λ x. bit (is_enabled x)) s.profiles (p ∷ []), ap bit off);
      numbered = v.numbered;
      distinct = v.distinct;
      room = ground (arith, length-append s.profiles (p ∷ []), room);
    }

-- The conditions under which a profile is installed: it is disabled, there is a place and the memory
-- for it, and the state's session is prepared.
abbrev pub Fits : EuiccState → ProfileSlot → Type 0
Fits s p =
    (p.state ≡ disabled)
    × (leb s.max_profiles (length s.profiles) ≡ false)
    × (ltb_ℤ s.free_nvm (pos (estimated_size p.profile_data)) ≡ false)
    × ((d : DownloadSession) × (s.active_session ≡ some d) × (d.prepared ≡ true))

-- The ways in which a call ends: refused or failed it leaves the state; an exception of the encoder
-- comes after the installation; completed, the session is gone.
pub data LoadStep (s : EuiccState) : Outcome LoadResult → EuiccState → Type 0 where
  refused :
      (tid : Bytes) (command reason : ℕ)
      → LoadStep s (returned (installation_error tid command reason)) s
  failed : LoadStep s raised s
  interrupted : (p : ProfileSlot) → Fits s p → LoadStep s raised (with_installed p s)
  completed :
      (p : ProfileSlot) (r : ResultData) (signature : Bytes)
      → Fits s p
      → LoadStep s
          (returned (installed r signature))
          (record (with_installed p s) { active_session = none })

module _ (e : Engine) where
  install_step :
      (d : DownloadSession) (bpp : Bpp) (iccid aid elements : Bytes) (s : EuiccState)
      → Fits s (new_profile bpp iccid aid d.server_address elements)
      → let (o, t) = install e d bpp iccid aid elements s in LoadStep s o t
  unfolding install
  install_step d bpp iccid aid elements s fits =
      let p = new_profile bpp iccid aid d.server_address elements in
      let result : ResultData = record {
        transaction_id = d.transaction_id;
        seq_number = (with_installed p s).notification_seq;
        notification_address = d.server_address;
        iccid = iccid;
        aid = aid;
      } in
      elim (Option-cases (e.encode_result_data result)) [
        | inl fails ↦ rw fails (interrupted p fits)
        | inr (tbs, made) ↦ rw made (completed p result (e.sign e.private_key tbs) fits)
      ]

  check_room_step :
      (d : DownloadSession) (bpp : Bpp) (random elements : Bytes) (s : EuiccState)
      → s.active_session ≡ some d
      → d.prepared ≡ true
      → let (o, t) = check_room e d bpp random elements s in LoadStep s o t
  unfolding check_room
  check_room_step d bpp random elements s here ready =
      elim (Bool-cases (ltb_ℤ s.free_nvm (pos (estimated_size elements)))) [
        | inl short ↦ rw short (refused d.transaction_id 0 3)
        | inr enough ↦ elim (Bool-cases (leb s.max_profiles (length s.profiles))) [
          | inl full ↦ rw (enough, full) (refused d.transaction_id 0 3)
          | inr room ↦ elim (Option-cases (allocate_isdp_aid s)) [
            | inl fails ↦ rw (enough, room, fails) failed
            | inr (aid, made) ↦
                rw (enough, room, made)
                  (install_step d bpp (default bpp.iccid random) aid elements s
                    (refl, room, enough, (d, here, ready)))
          ]
        ]
      ]

  load_in_step :
      (bpp : Bpp) (random : Bytes) (o : Option DownloadSession) (s : EuiccState)
      → s.active_session ≡ o
      → let (r, t) = load_in e bpp random o s in LoadStep s r t
  unfolding load_in
  load_in_step bpp random none s here = refused _ 0 4
  load_in_step bpp random (some d) s here = elim (Bool-cases d.prepared) [
    | inr early ↦ rw early (refused _ 0 4)
    | inl ready ↦
        elim (Bool-cases
          (truthy bpp.transaction_id && not (bytes_eq bpp.transaction_id d.transaction_id))) [
            | inl other ↦ rw (ready, other) (refused _ 0 1)
            | inr same ↦ elim (Option-cases (decrypted_elements e d.session_keys bpp)) [
              | inl fails ↦ rw (ready, same, fails) failed
              | inr (elements, made) ↦
                  rw (ready, same, made) (check_room_step d bpp random elements s here ready)
            ]
          ]
  ]

  -- Every call ends in one of the ways of `LoadStep`.
  pub load_bound_profile_package_step :
      (bpp : Bpp) (random : Bytes) (s : EuiccState)
      → let (o, t) = load_bound_profile_package e bpp random s in LoadStep s o t
  unfolding load_bound_profile_package
  load_bound_profile_package_step bpp random s = load_in_step bpp random s.active_session s refl

LoadStep-IsValid :
    (s t : EuiccState) (o : Outcome LoadResult) → LoadStep s o t → IsValid s → IsValid t
LoadStep-IsValid s t o (refused tid c r) v = v
LoadStep-IsValid s t o failed v = v
LoadStep-IsValid s t o (interrupted p fits) v =
    with_installed-IsValid p s v (ap (λ st. state_eq st enabled) fits.0) fits.1
LoadStep-IsValid s t o (completed p r signature fits) v =
    IsValid-with_session (with_installed p s) none
      (with_installed-IsValid p s v (ap (λ st. state_eq st enabled) fits.0) fits.1)

pub load_bound_profile_package-IsValid :
    (e : Engine) (bpp : Bpp) (random : Bytes) (s : EuiccState)
    → IsValid s
    → IsValid (load_bound_profile_package e bpp random s).1
load_bound_profile_package-IsValid e bpp random s v =
    LoadStep-IsValid s _ _ (load_bound_profile_package_step e bpp random s) v

LoadStep-SessionIsValid :
    (P : Option Bytes → Type 0) (s t : EuiccState) (o : Outcome LoadResult)
    → LoadStep s o t
    → SessionIsValid P s.active_session
    → SessionIsValid P t.active_session
unfolding add_notification
LoadStep-SessionIsValid P s t o (refused tid c r) v = v
LoadStep-SessionIsValid P s t o failed v = v
LoadStep-SessionIsValid P s t o (interrupted p fits) v = v
LoadStep-SessionIsValid P s t o (completed p r signature fits) v = tt

pub load_bound_profile_package-SessionIsValid :
    (e : Engine) (P : Option Bytes → Type 0) (bpp : Bpp) (random : Bytes) (s : EuiccState)
    → SessionIsValid P s.active_session
    → SessionIsValid P (load_bound_profile_package e bpp random s).1.active_session
load_bound_profile_package-SessionIsValid e P bpp random s v =
    LoadStep-SessionIsValid P s _ _ (load_bound_profile_package_step e bpp random s) v

-- What a completed installation has done.
abbrev pub Installed : EuiccState → EuiccState → Type 0
Installed s t =
    (p : ProfileSlot) × (t.profiles ≡ s.profiles ++ p ∷ [])
    × (p.state ≡ disabled)
    × (length t.profiles ≤ s.max_profiles)
    × (pos (profile_size p) ≤ℤ s.free_nvm)
    × (t.free_nvm +ℤ pos (profile_size p) ≡ s.free_nvm)
    × (t.notification_seq ≡ s.notification_seq + 1)
    × (t.active_session ≡ none)

completed_lem :
    (s t : EuiccState) (o : Outcome LoadResult) (r : ResultData) (signature : Bytes)
    → o ≡ returned (installed r signature)
    → LoadStep s o t
    → ((d : DownloadSession) × (s.active_session ≡ some d) × (d.prepared ≡ true)) × Installed s t
unfolding add_notification
completed_lem s t o r signature e (refused tid c n) = absurd (cc)
completed_lem s t o r signature e failed = absurd (cc)
completed_lem s t o r signature e (interrupted p fits) = absurd (cc)
completed_lem s t o r signature e (completed p r' signature' fits) =
    let size = profile_size p in
    (
      fits.3,
      (
        p,
        refl,
        fits.0,
        ground (arith, length-append s.profiles (p ∷ []), fits.1),
        ground (arith, fits.2),
        eq_of_parts _ s.free_nvm (
            omega (
              arith,
              +ℤ_parts (s.free_nvm -ℤ pos size) (pos size),
              -ℤ_parts s.free_nvm (pos size),
            )),
        refl,
        refl,
      ),
    )

-- Where `load_bound_profile_package` returns success, the session was prepared; the profile has been
-- appended, disabled, within the number of places and the free memory; the memory taken is what the
-- profile counts for when it is deleted; a notification has been numbered; and the session is over.
pub load_bound_profile_package_installs :
    (e : Engine) (bpp : Bpp) (random : Bytes) (s t : EuiccState) (r : ResultData)
    (signature : Bytes)
    → load_bound_profile_package e bpp random s ≡ (returned (installed r signature), t)
    → ((d : DownloadSession) × (s.active_session ≡ some d) × (d.prepared ≡ true)) × Installed s t
load_bound_profile_package_installs e bpp random s t r signature h =
    let step = load_bound_profile_package_step e bpp random s in
    subst
      (λ t.
        ((d : DownloadSession) × (s.active_session ≡ some d) × (d.prepared ≡ true)) × Installed s t)
      (ap (λ x. x.1) h) (completed_lem s _ _ r signature (ap (λ x. x.0) h) step)

refused_lem :
    (s t : EuiccState) (o : Outcome LoadResult) (tid : Bytes) (command reason : ℕ)
    → o ≡ returned (installation_error tid command reason)
    → LoadStep s o t
    → t ≡ s
refused_lem s t o tid command reason e (refused tid' c n) = refl
refused_lem s t o tid command reason e failed = refl
refused_lem s t o tid command reason e (interrupted p fits) = absurd (cc)
refused_lem s t o tid command reason e (completed p r signature fits) = absurd (cc)

-- Where `load_bound_profile_package` returns an installation error, the state is what it was: no
-- profile, no memory taken, no notification, and the session goes on.
pub load_bound_profile_package_refuses :
    (e : Engine) (bpp : Bpp) (random : Bytes) (s t : EuiccState) (tid : Bytes) (command reason : ℕ)
    → load_bound_profile_package e bpp random s
      ≡ (returned (installation_error tid command reason), t)
    → t ≡ s
load_bound_profile_package_refuses e bpp random s t tid command reason h =
    sym (ap (λ x. x.1) h)
    ∙ refused_lem s _ _ tid command reason (ap (λ x. x.0) h)
        (load_bound_profile_package_step e bpp random s)
