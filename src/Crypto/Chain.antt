-- ===== src/Crypto/Chain.antt =====
-- The chain that app/crypto/certificates.py generates, and what a later start finds of it.
use euicc_simulator.Prelude.{
  ◌≡◌, refl, sym, ap, ◌∙◌, false, none, some, ◌++◌, Bytes, Text, codes, bytes_eq, starts_with,
}
use euicc_simulator.Prelude.Outcome.{returned}
use euicc_simulator.Euicc.{upper}
use euicc_simulator.Crypto.Certificates.{
  CertFields, CertLib, KeyPairBundle, CertificateInfrastructure, Fresh, FreshChain, Files, exists,
  bundle, ci_fields, eum_fields, euicc_fields, generate_ci_root, generate_eum_cert,
  generate_euicc_cert, load_key_pair, save_key_pair, generate_full_chain, load_existing,
}
use euicc_simulator.Crypto.Initialize.{initialize}

-- What the code relies on: a certificate holds what was signed, and what is saved can be loaded.
pub record CertLaws (lib : CertLib) : Type 0 where
  pub fields-sign : (key : Bytes) (f : CertFields) → lib.fields (lib.sign key f) ≡ f
  pub load-private_pem : (key : Bytes) → lib.load_private_pem (lib.private_pem key) ≡ some key
  pub load-cert_pem :
      (certificate : lib.Certificate)
      → lib.load_cert_pem (lib.cert_pem certificate) ≡ some certificate

-- The certificate of `b` is for its key and its identifier, and `issuer` issued it.
pub record Issued (lib : CertLib) (issuer b : (KeyPairBundle lib.Certificate)) : Type 0 where
  pub signed : b.certificate ≡ lib.sign issuer.private_key (lib.fields b.certificate)
  pub named : (lib.fields b.certificate).issuer ≡ (lib.fields issuer.certificate).subject
  pub linked : (lib.fields b.certificate).authority_key_identifier ≡ some (some issuer.ski)
  pub own_ski : (lib.fields b.certificate).subject_key_identifier ≡ some b.ski
  pub own_key : (lib.fields b.certificate).public_key ≡ lib.public_key b.private_key

module _ (lib : CertLib) (laws : CertLaws lib) where
  abbrev HasSki : (KeyPairBundle lib.Certificate) → Type 0
  HasSki b = (lib.fields b.certificate).subject_key_identifier ≡ some b.ski

  bundle-Issued :
      (fresh : Fresh) (issuer : (KeyPairBundle lib.Certificate)) (f : CertFields)
      → f.issuer ≡ (lib.fields issuer.certificate).subject
      → f.authority_key_identifier ≡ some (some issuer.ski)
      → f.subject_key_identifier ≡ some (lib.key_identifier (lib.public_key fresh.private_key))
      → f.public_key ≡ lib.public_key fresh.private_key
      → Issued lib issuer (bundle lib fresh issuer.private_key f)
  bundle-Issued fresh issuer f named linked ski key =
      let read : lib.fields (lib.sign issuer.private_key f) ≡ f =
        laws.fields-sign issuer.private_key f in
      record {
        signed = ap (λ g. lib.sign issuer.private_key g) (sym read);
        named = ap (λ (g : CertFields). g.issuer) read ∙ named;
        linked = ap (λ (g : CertFields). g.authority_key_identifier) read ∙ linked;
        own_ski = ap (λ (g : CertFields). g.subject_key_identifier) read ∙ ski;
        own_key = ap (λ (g : CertFields). g.public_key) read ∙ key;
      }

  generate_eum_cert-Issued :
      (fresh : Fresh) (ci : (KeyPairBundle lib.Certificate))
      → HasSki ci
      → (eum : (KeyPairBundle lib.Certificate)) × (generate_eum_cert lib fresh ci ≡ some eum)
        × Issued lib ci eum
  unfolding generate_eum_cert
  generate_eum_cert-Issued fresh ci h = (
    bundle lib fresh ci.private_key (eum_fields lib fresh ci ci.ski),
    rw h refl,
    bundle-Issued fresh ci (eum_fields lib fresh ci ci.ski) refl refl refl refl,
  )

  generate_euicc_cert-Issued :
      (fresh : Fresh) (eum : (KeyPairBundle lib.Certificate)) (eid : Text)
      → HasSki eum
      → (euicc : (KeyPairBundle lib.Certificate)) × (generate_euicc_cert lib fresh eum eid
          ≡ some euicc)
        × Issued lib eum euicc
  unfolding generate_euicc_cert
  generate_euicc_cert-Issued fresh eum eid h = (
    bundle lib fresh eum.private_key (euicc_fields lib fresh eum eid eum.ski),
    rw h refl,
    bundle-Issued fresh eum (euicc_fields lib fresh eum eid eum.ski) refl refl refl refl,
  )

  -- The root is one that issued itself, but for the link to the issuer's key.
  generate_ci_root-HasSki : (fresh : Fresh) → HasSki (generate_ci_root lib fresh)
  unfolding generate_ci_root
  generate_ci_root-HasSki fresh =
      ap (λ (g : CertFields). g.subject_key_identifier)
        (laws.fields-sign fresh.private_key (ci_fields lib fresh))

  load_key_pair_found :
      (name : Text) (b : (KeyPairBundle lib.Certificate)) (files : (Files lib.Content))
      → files (name ++ codes "_private.pem") ≡ some (lib.private_pem b.private_key)
      → files (name ++ codes "_cert.pem") ≡ some (lib.cert_pem b.certificate)
      → HasSki b
      → load_key_pair lib name files ≡ some b
  unfolding load_key_pair
  load_key_pair_found name b files key certificate ski =
      rw
        (
          key,
          certificate,
          laws.load-private_pem b.private_key,
          laws.load-cert_pem b.certificate,
          ski,
        )
        refl

  -- The directory after a full generation.
  abbrev saved_chain :
      (CertificateInfrastructure lib.Certificate) → (Files lib.Content) → (Files lib.Content)
  saved_chain pki files =
      save_key_pair lib (codes "euicc") pki.euicc
        (save_key_pair lib (codes "eum") pki.eum (save_key_pair lib (codes "ci") pki.ci files))

  load_existing-saved_chain :
      (fresh : FreshChain) (eid : Text) (pki : (CertificateInfrastructure lib.Certificate))
      (files : (Files lib.Content))
      → HasSki pki.ci
      → HasSki pki.eum
      → HasSki pki.euicc
      → load_existing lib fresh eid (saved_chain pki files) ≡ (returned pki, saved_chain pki files)
  unfolding load_existing bytes_eq
  load_existing-saved_chain fresh eid pki files c m e =
      let all = saved_chain pki files in
      rw
        (
          load_key_pair_found (codes "ci") pki.ci all refl refl c,
          load_key_pair_found (codes "eum") pki.eum all refl refl m,
          load_key_pair_found (codes "euicc") pki.euicc all refl refl e,
        )
        refl

  -- A chain that is linked from the eUICC to the root.
  abbrev pub Linked : (CertificateInfrastructure lib.Certificate) → Type 0
  Linked pki = HasSki pki.ci × Issued lib pki.ci pki.eum × Issued lib pki.eum pki.euicc

  generate_full_chain-Linked :
      (fresh : FreshChain) (eid : Text) (files : (Files lib.Content))
      → (pki : (CertificateInfrastructure lib.Certificate)) × Linked pki
        × (generate_full_chain lib fresh eid files ≡ (returned pki, saved_chain pki files))
  unfolding generate_full_chain
  generate_full_chain-Linked fresh eid files =
      let ci = generate_ci_root lib fresh.ci in
      let has = generate_ci_root-HasSki fresh.ci in
      let (eum, made_eum, eum_issued) = generate_eum_cert-Issued fresh.eum ci has in
      let (euicc, made_euicc, euicc_issued) =
        generate_euicc_cert-Issued fresh.euicc eum eid eum_issued.own_ski in
      (
        record { ci = ci; eum = eum; euicc = euicc },
        (has, eum_issued, euicc_issued),
        rw (made_eum, made_euicc) refl,
      )

  -- For an EID outside the SGP.26 range, a first start generates a chain in which the eUICC's
  -- certificate is issued by the EUM's and that by the CI's, and every later start, whatever it would
  -- draw, loads the same chain and changes no file.
  pub initialize_generates :
      (fresh later : FreshChain) (eid : Text) (sgp26_dir files : (Files lib.Content))
      → starts_with (upper eid) (codes "89049032") ≡ false
      → files (codes "ci_private.pem") ≡ none
      → (pki : (CertificateInfrastructure lib.Certificate)) × (files' : (Files lib.Content))
        × Linked pki
        × (initialize lib fresh eid false sgp26_dir files ≡ (returned pki, files'))
        × (initialize lib later eid false sgp26_dir files' ≡ (returned pki, files'))
  unfolding initialize bytes_eq
  initialize_generates fresh later eid sgp26_dir files outside new =
      let (pki, linked, made) = generate_full_chain-Linked fresh eid files in
      let (c, m, e) = linked in
      let is_new : exists (codes "ci_private.pem") files ≡ false = rw new refl in
      (
        pki,
        saved_chain pki files,
        linked,
        rw (outside, is_new) made,
        rw outside (load_existing-saved_chain later eid pki files c m.own_ski e.own_ski),
      )
