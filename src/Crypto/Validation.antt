-- ===== src/Crypto/Validation.antt =====
-- `validate_server_cert` of app/crypto/cert_validator.py: exactly which certificates it accepts.
use euicc_simulator.Prelude.{
  ℕ, ◌≡◌, ◌≤◌, ◌⊎◌, ◌↔◌, ◌∙◌, ap, subst, Bool, false, inl, inr, refl, true, false, Option, none,
  some, List, Bytes, bytes_eq, bytes_eq→eq, bytes_eq_iff, arith, ltb, Bool-cases, Option-cases,
}
use euicc_simulator.Crypto.CertValidator.{
  AuthorityKey, unreadable, not_found, found, Certificate, Loaded, parsed, malformed, X509, trusted,
  ci_cert, signed_by, names_issuer, with_key, check_self, check_issuer, check_chain, check_known,
  check_loaded, validate_server_cert,
}

-- The extension can be read, or is not there.
abbrev pub readable : AuthorityKey → Bool
readable unreadable = false
readable not_found = true
readable (found aki) = true

-- What makes a parsed certificate acceptable under a CI certificate, with a key: it is in its dates,
-- both public keys load, and either the CI's key signed it, or it names itself as its issuer, its own
-- key signed it and its extensions can be read.
abbrev pub Acceptable : X509 → ℕ → Certificate → Certificate → Bytes → Type 0
Acceptable x now ci server key =
    (server.not_valid_before ≤ now)
    × (now ≤ server.not_valid_after)
    × (server.public_key ≡ some key)
    × ((ci_key : Bytes) × (ci.public_key ≡ some ci_key)
        × ((signed_by x ci_key server ≡ true)
            ⊎ ((server.issuer ≡ server.subject)
                × (signed_by x key server ≡ true)
                × (readable server.authority_key_identifier ≡ true))))

-- The server's certificate and the CI's, in a validation that succeeds with a key.
abbrev pub Accepted : X509 → List Certificate → ℕ → Bytes → Bytes → Bytes → Type 0
Accepted x cis now der ci_pkid key =
    (server : Certificate) × (ci : Certificate) × (x.load_der der ≡ parsed server)
    × (ci_cert ci_pkid cis ≡ some ci)
    × Acceptable x now ci server key

with_key_trusted : (o : Option Bytes) (key : Bytes) → with_key o ≡ trusted key → o ≡ some key
with_key_trusted none key h = absurd (cc)
with_key_trusted (some k) key h = grind arith

module _ (x : X509) (server : Certificate) (key : Bytes) where
  abbrev SelfSigned : Type 0
  SelfSigned =
      (server.public_key ≡ some key)
      × (server.issuer ≡ server.subject)
      × (signed_by x key server ≡ true)

  check_self_accepts : check_self x server server.public_key ≡ trusted key → SelfSigned
  check_self_accepts h = elim (Option-cases server.public_key) [
    | inl none_there ↦ absurd (grind arith)
    | inr (k, here) ↦ elim (Bool-cases (bytes_eq server.issuer server.subject)) [
      | inr other ↦ absurd (grind arith)
      | inl self ↦ elim (Bool-cases (signed_by x k server)) [
        | inr bad ↦ absurd (grind arith)
        | inl own ↦
            let same : k ≡ key = grind arith in
            (
              here ∙ ap (λ q. some q) same,
              bytes_eq→eq server.issuer server.subject self,
              subst (λ q. signed_by x q server ≡ true) same own,
            )
      ]
    ]
  ]

  check_self-SelfSigned : SelfSigned → check_self x server server.public_key ≡ trusted key
  check_self-SelfSigned (here, self, own) =
      rw (here, (bytes_eq_iff server.issuer server.subject).1 self, own) refl

  check_issuer_accepts :
      (ci_key ci_pkid : Bytes) (aki : AuthorityKey)
      → signed_by x ci_key server ≡ false
      → check_issuer x ci_key ci_pkid server aki ≡ trusted key
      → SelfSigned × (readable aki ≡ true)
  check_issuer_accepts ci_key ci_pkid unreadable unsigned h = absurd (cc)
  check_issuer_accepts ci_key ci_pkid not_found unsigned h = (check_self_accepts h, refl)
  check_issuer_accepts ci_key ci_pkid (found aki) unsigned h =
      elim (Bool-cases (names_issuer aki ci_pkid)) [
        | inl named ↦ (check_self_accepts (grind arith), refl)
        | inr other ↦ (check_self_accepts (grind arith), refl)
      ]

  check_issuer-SelfSigned :
      (ci_key ci_pkid : Bytes) (aki : AuthorityKey)
      → signed_by x ci_key server ≡ false
      → readable aki ≡ true
      → SelfSigned
      → check_issuer x ci_key ci_pkid server aki ≡ trusted key
  check_issuer-SelfSigned ci_key ci_pkid unreadable unsigned r own = absurd (cc)
  check_issuer-SelfSigned ci_key ci_pkid not_found unsigned r own = check_self-SelfSigned own
  check_issuer-SelfSigned ci_key ci_pkid (found aki) unsigned r own =
      elim (Bool-cases (names_issuer aki ci_pkid)) [
        | inl named ↦ rw (named, unsigned) (check_self-SelfSigned own)
        | inr other ↦ rw other (check_self-SelfSigned own)
      ]

module _ (x : X509) where
  check_chain_accepts :
      (o : Option Bytes) (ci_pkid key : Bytes) (server : Certificate)
      → check_chain x o ci_pkid server ≡ trusted key
      → (server.public_key ≡ some key)
        × ((ci_key : Bytes) × (o ≡ some ci_key)
            × ((signed_by x ci_key server ≡ true)
                ⊎ ((server.issuer ≡ server.subject)
                    × (signed_by x key server ≡ true)
                    × (readable server.authority_key_identifier ≡ true))))
  unfolding check_chain
  check_chain_accepts none ci_pkid key server h = absurd (cc)
  check_chain_accepts (some ci_key) ci_pkid key server h =
      elim (Bool-cases (signed_by x ci_key server)) [
        | inl direct ↦
            (with_key_trusted server.public_key key (grind arith), (ci_key, refl, inl direct))
        | inr unsigned ↦
            let ((here, self, own), reads) =
              check_issuer_accepts x server key ci_key ci_pkid server.authority_key_identifier
                unsigned (grind arith) in
            (here, (ci_key, refl, inr (self, own, reads)))
      ]

  check_chain-Acceptable :
      (now : ℕ) (ci_pkid key : Bytes) (server ci : Certificate)
      → Acceptable x now ci server key
      → check_chain x ci.public_key ci_pkid server ≡ trusted key
  unfolding check_chain
  check_chain-Acceptable now ci_pkid key server ci (from, to, here, (ci_key, ci_here, chain)) =
      elim (Bool-cases (signed_by x ci_key server)) [
        | inl direct ↦ rw (check_chain, ci_here, direct, here) refl
        | inr unsigned ↦ elim chain [
          | inl direct ↦ absurd (grind arith)
          | inr (self, own, reads) ↦
              rw (check_chain, ci_here, unsigned)
                (check_issuer-SelfSigned x server key ci_key ci_pkid server.authority_key_identifier
                  unsigned reads (here, self, own))
        ]
      ]

  check_known_accepts :
      (now : ℕ) (ci_pkid key : Bytes) (server : Certificate) (o : Option Certificate)
      → check_known x now ci_pkid server o ≡ trusted key
      → (ci : Certificate) × (o ≡ some ci) × Acceptable x now ci server key
  check_known_accepts now ci_pkid key server none h = absurd (cc)
  check_known_accepts now ci_pkid key server (some ci) h =
      elim (Bool-cases (ltb now server.not_valid_before)) [
        | inl early ↦ absurd (grind arith)
        | inr begun ↦ elim (Bool-cases (ltb server.not_valid_after now)) [
          | inl late ↦ absurd (grind arith)
          | inr valid ↦
              let ran : check_chain x ci.public_key ci_pkid server ≡ trusted key = grind arith in
              let (here, chain) = check_chain_accepts ci.public_key ci_pkid key server ran in
              (ci, refl, (ground arith, ground arith, here, chain))
        ]
      ]

  check_known-Acceptable :
      (now : ℕ) (ci_pkid key : Bytes) (server ci : Certificate)
      → Acceptable x now ci server key
      → check_known x now ci_pkid server (some ci) ≡ trusted key
  check_known-Acceptable now ci_pkid key server ci good =
      let (from, to, _, _) = good in
      let begun : ltb now server.not_valid_before ≡ false = ground arith in
      let valid : ltb server.not_valid_after now ≡ false = ground arith in
      rw (begun, valid) (check_chain-Acceptable now ci_pkid key server ci good)

  check_loaded_accepts :
      (cis : List Certificate) (now : ℕ) (ci_pkid key : Bytes) (l : Loaded)
      → check_loaded x cis now ci_pkid l ≡ trusted key
      → (server : Certificate) × (ci : Certificate) × (l ≡ parsed server)
        × (ci_cert ci_pkid cis ≡ some ci)
        × Acceptable x now ci server key
  check_loaded_accepts cis now ci_pkid key (malformed e) h = absurd (cc)
  check_loaded_accepts cis now ci_pkid key (parsed server) h =
      let (ci, known, good) = check_known_accepts now ci_pkid key server (ci_cert ci_pkid cis) h in
      (server, ci, refl, known, good)

  accepts_loaded :
      (cis : List Certificate) (now : ℕ) (der ci_pkid key : Bytes)
      → Accepted x cis now der ci_pkid key
      → validate_server_cert x cis now der ci_pkid ≡ trusted key
  unfolding validate_server_cert
  accepts_loaded cis now der ci_pkid key (server, ci, load, known, good) =
      rw (load, known) (check_known-Acceptable now ci_pkid key server ci good)

  -- The validator returns success with a key exactly if the bytes parse to a certificate whose public
  -- key loads as that key and which is in its dates, the CI identifier is that of a trusted CI
  -- certificate whose key loads, and either the CI's key signed the certificate or the certificate
  -- names itself as its issuer, its own key signed it and its extensions can be read: a self-signed
  -- certificate is accepted whatever the CI's key says, and a certificate of an intermediate CA never.
  pub validate_server_cert_iff :
      (cis : List Certificate) (now : ℕ) (der ci_pkid key : Bytes)
      → (validate_server_cert x cis now der ci_pkid ≡ trusted key)
        ↔ Accepted x cis now der ci_pkid key
  unfolding validate_server_cert
  validate_server_cert_iff cis now der ci_pkid key = (
    check_loaded_accepts cis now ci_pkid key (x.load_der der),
    accepts_loaded cis now der ci_pkid key,
  )
