-- ===== src/Simulator/CardResource.antt =====
-- What the eUICC of app/models/euicc.py reports of its memory in euiccInfo2, in the states that calls
-- of the handlers of app/es10 lead to.
use euicc_simulator.Prelude.{
  ℕ, ◌+◌, ◌*◌, ◌/◌, ◌%◌, ◌<◌, ◌≤◌, ◌≡◌, refl, sym, truthy, codes, if◌then◌else◌, ◌++◌, ap, ◌∙◌,
  some, [], ◌∷◌, Bytes, Text, arith,
}
use euicc_simulator.Prelude.Int.{ℤ, pos, negsuc, neg_part, pos_part}
use euicc_simulator.Euicc.{
  EuiccState, new_euicc, version_to_bytes, to_bytes_3, ext_card_resource_bytes,
}
use euicc_simulator.Es10b.Engine.{Engine, EuiccInfo2}
use euicc_simulator.Es10b.Info.{get_euicc_info2}
use euicc_simulator.Simulator.Footprint.{features, used_nvm}
use euicc_simulator.Simulator.Memory.{MemoryIsValid}
use euicc_simulator.Simulator.Budgets.{perform-Budgets}
use euicc_simulator.Simulator.Reachability.{Reachable, start, step}

MemoryIsValid-new_euicc : (eid : Text) → MemoryIsValid (new_euicc eid)
unfolding new_euicc
MemoryIsValid-new_euicc eid = record { non_negative = refl; accounted = omega arith }

Reachable-MemoryIsValid :
    (e : Engine) (eid : Text) (s : EuiccState) → Reachable e eid s → MemoryIsValid s
Reachable-MemoryIsValid e eid _ start = MemoryIsValid-new_euicc eid
Reachable-MemoryIsValid e eid _ (step c s r) =
    (perform-Budgets e c s).kept_memory (Reachable-MemoryIsValid e eid s r)

pub Reachable-features :
    (e : Engine) (eid : Text) (s : EuiccState)
    → Reachable e eid s
    → features s ≡ features (new_euicc eid)
Reachable-features e eid _ start = refl
Reachable-features e eid _ (step c s r) =
    (perform-Budgets e c s).kept_features ∙ Reachable-features e eid s r

natural : (a : ℤ) → neg_part a ≡ 0 → a ≡ pos (pos_part a)
natural (pos n) h = refl
natural (negsuc n) h = absurd (omega arith)

-- From a new eUICC, any calls of the handlers in any order, those that raise included, leave its
-- capacity and versions as they were and its free memory a natural number that, with what the
-- profiles count for, is no more than the 512 KiB that there are.
pub Reachable-free_nvm :
    (e : Engine) (eid : Text) (s : EuiccState)
    → Reachable e eid s
    → (features s ≡ features (new_euicc eid))
      × ((n : ℕ) × (s.free_nvm ≡ pos n) × (n + used_nvm s ≤ 512 * 1024))
unfolding new_euicc
Reachable-free_nvm e eid s r =
    let v = Reachable-MemoryIsValid e eid s r in
    let same = Reachable-features e eid s r in
    let total : s.total_nvm ≡ 512 * 1024 = ap (λ f. f.total_nvm) same in
    (
      same,
      (pos_part s.free_nvm, natural s.free_nvm v.non_negative, omega (arith, total, v.accounted)),
    )

-- The three bytes of a number below 2^24 give the number back.
to_bytes_3-value :
    (n : ℕ)
    → n < 16777216
    → (a : ℕ) × (b : ℕ) × (c : ℕ) × (to_bytes_3 (pos n) ≡ some (a ∷ b ∷ c ∷ []))
      × (a < 256)
      × (b < 256)
      × (c < 256)
      × (a * 65536 + b * 256 + c ≡ n)
unfolding to_bytes_3
to_bytes_3-value n h = (
  n / 65536,
  n / 256 % 256,
  n % 256,
  ground arith,
  omega arith,
  omega arith,
  omega arith,
  omega arith,
)

-- euiccInfo2 of an eUICC with the features of a new one, but for its card resource.
abbrev reported : Engine → EuiccState → Bytes → EuiccInfo2
reported e s card = record {
  profile_version = 2 ∷ 3 ∷ 1 ∷ [];
  svn = 3 ∷ 1 ∷ 0 ∷ [];
  firmware_version = 1 ∷ 0 ∷ 0 ∷ [];
  ext_card_resource = card;
  uicc_capability = s.uicc_capability;
  rsp_capability = s.rsp_capability;
  for_verification = e.trusted_ci_pkids;
  for_signing = e.ci_pki_id ∷ [];
  pp_version = 0 ∷ 0 ∷ 0 ∷ [];
  sas_accreditation_number = [];
  platform_label = if truthy s.platform_label then s.platform_label else codes "ConnectX-eUICC-Sim";
  discovery_base_url = codes "https://euicc.connectxiot.com";
  ipa_mode = s.ipa_mode;
  iot_version = 1 ∷ 2 ∷ 0 ∷ [];
}

get_euicc_info2-reported :
    (e : Engine) (eid : Text) (s : EuiccState) (card : Bytes)
    → features s ≡ features (new_euicc eid)
    → ext_card_resource_bytes s ≡ some card
    → get_euicc_info2 e s ≡ some (reported e s card)
unfolding get_euicc_info2 new_euicc version_to_bytes
get_euicc_info2-reported e eid s card same made =
    let v1 : version_to_bytes s.profile_version ≡ some (2 ∷ 3 ∷ 1 ∷ []) =
      ap (λ f. version_to_bytes f.profile_version) same in
    let v2 : version_to_bytes s.svn ≡ some (3 ∷ 1 ∷ 0 ∷ []) =
      ap (λ f. version_to_bytes f.svn) same in
    let v3 : version_to_bytes s.firmware_version ≡ some (1 ∷ 0 ∷ 0 ∷ []) =
      ap (λ f. version_to_bytes f.firmware_version) same in
    let v4 : version_to_bytes s.iot_version ≡ some (1 ∷ 2 ∷ 0 ∷ []) =
      ap (λ f. version_to_bytes f.iot_version) same in
    simp (v1, v2, v3, v4, made) refl

card_resource-made :
    (s : EuiccState) (n : ℕ) (three : Bytes)
    → s.free_nvm ≡ pos n
    → s.free_volatile ≡ 7168
    → to_bytes_3 (pos n) ≡ some three
    → ext_card_resource_bytes s ≡ some ((0x82 ∷ 3 ∷ []) ++ (three ++ (0x83 ∷ 3 ∷ 0 ∷ 28 ∷ 0 ∷ [])))
unfolding ext_card_resource_bytes to_bytes_3
card_resource-made s n three free vol made =
    let a : to_bytes_3 s.free_nvm ≡ some three = ap to_bytes_3 free ∙ made in
    let b : to_bytes_3 (pos s.free_volatile) ≡ some (0 ∷ 28 ∷ 0 ∷ []) =
      ap (λ k. to_bytes_3 (pos k)) vol in
    simp (a, b) refl

-- In every state that calls lead to from a new eUICC, `get_euicc_info2` returns, and the free
-- non-volatile memory that its card resource reports, three bytes after the tag, is what is free.
pub Reachable-get_euicc_info2 :
    (e : Engine) (eid : Text) (s : EuiccState)
    → Reachable e eid s
    → (info : EuiccInfo2) × (a : ℕ) × (b : ℕ) × (c : ℕ) × (get_euicc_info2 e s ≡ some info)
      × (info.ext_card_resource ≡ 0x82 ∷ 3 ∷ a ∷ b ∷ c ∷ 0x83 ∷ 3 ∷ 0 ∷ 28 ∷ 0 ∷ [])
      × (a < 256)
      × (b < 256)
      × (c < 256)
      × (s.free_nvm ≡ pos (a * 65536 + b * 256 + c))
unfolding new_euicc
Reachable-get_euicc_info2 e eid s r =
    let (same, (n, free, fits)) = Reachable-free_nvm e eid s r in
    let vol : s.free_volatile ≡ 7168 = ap (λ f. f.free_volatile) same in
    let (a, b, c, made, a_lt, b_lt, c_lt, value) = to_bytes_3-value n (omega (arith, fits)) in
    let card = 0x82 ∷ 3 ∷ a ∷ b ∷ c ∷ 0x83 ∷ 3 ∷ 0 ∷ 28 ∷ 0 ∷ [] in
    (
      reported e s card,
      a,
      b,
      c,
      get_euicc_info2-reported e eid s card same
          (card_resource-made s n (a ∷ b ∷ c ∷ []) free vol made),
      refl,
      a_lt,
      b_lt,
      c_lt,
      free ∙ ap pos (sym value),
    )
