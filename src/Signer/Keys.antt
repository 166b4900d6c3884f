-- ===== src/Signer/Keys.antt =====
-- Where the signing key comes from, and what its JWKS publishes.
use mxtng_auth_services.Common.{
  ◌≡◌, ◌∙◌, sym, ap, refl, String, Bool, true, false, not, ◌&&◌, Option, none, some, is_some, [],
  ◌∷◌, truthy, inl, inr, arith, Bool-cases,
}
use mxtng_auth_services.Settings.{Settings, is_development, reveal}
use mxtng_auth_services.Base64.{from_bytes, urlsafe_b64decode}
use mxtng_auth_services.Base64.RoundTrip.{decode-b64}
use mxtng_auth_services.Signer.{
  Process, Rsa, Loaded, rsa_key, other_key, bad_pem, LocalRsaSigner, Jwk, Outcome, done, failed,
  missing_signing_key, accept, load_signer, invent_key, read_key_file, pem_or_file, held_signer,
  from_settings, keep_signer, get_signer, jwks, sign, restart, b64url_uint, is_ascii,
}

-- Neither the process, nor the settings, nor the disk hold a key.
abbrev pub no_source : {Key : Type 0} → Settings → Process Key → Bool
no_source cfg p =
    not (is_some p.signer)
    && (not (truthy (reveal cfg.private_key_pem)) && not (is_some p.key_file))

abbrev pub is_missing : {A : Type 0} → Outcome A → Bool
is_missing (failed (missing_signing_key _)) = true
is_missing _ = false

-- What `get_signer` does to the key material, and when it finds none.
pub record KeyKept (Key Claims : Type 0) (rsa : Rsa Key Claims) (cfg : Settings) (p : Process Key)
    : Type 0 where
  pub same_file : (get_signer rsa cfg p).1.key_file ≡ p.key_file
  pub same_keys : (get_signer rsa cfg p).1.generated ≡ p.generated
  pub missing : is_missing (get_signer rsa cfg p).0 ≡ no_source cfg p

-- What a verifier reads from the JWKS.
pub record Published {Key Claims : Type 0} (rsa : Rsa Key Claims) (signer : LocalRsaSigner Key)
    : Type 0 where
  pub jwk : Jwk
  pub only : jwks rsa signer ≡ jwk ∷ []
  pub same_kid :
      (claims : Claims) → sign rsa signer claims ≡ rsa.encode_jwt claims signer.pem jwk.kid
  pub modulus : from_bytes 0 (urlsafe_b64decode jwk.n) ≡ rsa.modulus signer.private_key
  pub exponent : from_bytes 0 (urlsafe_b64decode jwk.e) ≡ rsa.exponent signer.private_key

module _ {Key Claims : Type 0} (rsa : Rsa Key Claims) (cfg : Settings) where
  accept-found : (l : Loaded Key) → is_missing (accept rsa cfg l) ≡ false
  unfolding accept
  accept-found (rsa_key key) = refl
  accept-found other_key = refl
  accept-found bad_pem = refl

  load-found : (pem : String) → is_missing (load_signer rsa cfg pem) ≡ false
  unfolding load_signer
  load-found pem = elim (Bool-cases (is_ascii pem)) [
    | inl e ↦ rw e (accept-found (rsa.load_pem pem))
    | inr e ↦ rw e refl
  ]

  kept :
      (o : Outcome (LocalRsaSigner Key) × Process Key)
      → ((keep_signer rsa o).1.key_file ≡ o.1.key_file)
        × ((keep_signer rsa o).1.generated ≡ o.1.generated)
        × (is_missing (keep_signer rsa o).0 ≡ is_missing o.0)
  unfolding keep_signer
  kept (done signer, p) = (refl, refl, refl)
  kept (failed e, p) = (refl, refl, refl)

  file-kept :
      (p : Process Key) (file : Option String)
      → is_development cfg ≡ false
      → ((read_key_file rsa cfg file p).1 ≡ p)
        × (is_missing (read_key_file rsa cfg file p).0 ≡ not (is_some file))
  unfolding read_key_file invent_key
  file-kept p (some pem) h = (refl, load-found pem)
  file-kept p none h = rw h (refl, refl)

  pem-kept :
      (p : Process Key) (value : Option String)
      → is_development cfg ≡ false
      → ((pem_or_file rsa cfg value p).1 ≡ p)
        × (is_missing (pem_or_file rsa cfg value p).0
            ≡ (not (truthy value) && not (is_some p.key_file)))
  unfolding pem_or_file
  pem-kept p none h = file-kept p p.key_file h
  pem-kept p (some pem) h = elim (Bool-cases (truthy (some pem))) [
    | inl set ↦ rw set (refl, load-found pem)
    | inr unset ↦ rw unset (file-kept p p.key_file h)
  ]

  held-kept :
      (p : Process Key) (held : Option (LocalRsaSigner Key))
      → is_development cfg ≡ false
      → ((held_signer rsa cfg held p).1.key_file ≡ p.key_file)
        × ((held_signer rsa cfg held p).1.generated ≡ p.generated)
        × (is_missing (held_signer rsa cfg held p).0 ≡ (
            not (is_some held)
            && (not (truthy (reveal cfg.private_key_pem)) && not (is_some p.key_file))))
  unfolding held_signer from_settings
  held-kept p (some signer) h = (refl, refl, refl)
  held-kept p none h =
      let (same, missing) = pem-kept p (reveal cfg.private_key_pem) h in
      let (file, keys, answer) = kept (from_settings rsa cfg p) in
      (
        file ∙ ap (λ (q : Process Key). q.key_file) same,
        keys ∙ ap (λ (q : Process Key). q.generated) same,
        answer ∙ missing,
      )

  -- Outside development no signing key is made and the key file stays as it is; `get_signer`
  -- raises MissingSigningKey exactly when the process holds no signer, PRIVATE_KEY_PEM is unset or
  -- empty and there is no key file.
  pub get_signer-KeyKept :
      (p : Process Key) → is_development cfg ≡ false → KeyKept Key Claims rsa cfg p
  unfolding get_signer
  get_signer-KeyKept p h =
      let (file, keys, missing) = held-kept p p.signer h in
      record { same_file = file; same_keys = keys; missing = missing }

  invented :
      (p q r : Process Key) (signer : LocalRsaSigner Key) (file : Option String)
      → invent_key rsa cfg p ≡ (done signer, q)
      → file ≡ q.key_file
      → read_key_file rsa cfg file r ≡ (done signer, r)
  unfolding invent_key read_key_file
  invented p q r signer file h same = elim (Bool-cases (is_development cfg)) [
    | inl dev ↦
        let made = rw dev at h in rw (same, ← ap (λ x. x.1.key_file) made) (ap (λ x. (x.0, r)) made)
    | inr live ↦ let bad = ap (λ x. x.0) (rw live at h) in cc
  ]

  file-again :
      (p q r : Process Key) (signer : LocalRsaSigner Key) (file again : Option String)
      → p.key_file ≡ file
      → read_key_file rsa cfg file p ≡ (done signer, q)
      → again ≡ q.key_file
      → read_key_file rsa cfg again r ≡ (done signer, r)
  unfolding read_key_file
  file-again p q r signer (some pem) again e h same =
      let found = same ∙ ap (λ x. x.1.key_file) (sym h) ∙ e in rw found (ap (λ x. (x.0, r)) h)
  file-again p q r signer none again e h same = invented p q r signer again h same

  pem-again :
      (p q r : Process Key) (signer : LocalRsaSigner Key) (value : Option String)
      → pem_or_file rsa cfg value p ≡ (done signer, q)
      → r.key_file ≡ q.key_file
      → pem_or_file rsa cfg value r ≡ (done signer, r)
  unfolding pem_or_file
  pem-again p q r signer none h same = file-again p q r signer p.key_file r.key_file refl h same
  pem-again p q r signer (some pem) h same = elim (Bool-cases (truthy (some pem))) [
    | inl set ↦ rw set (ap (λ x. (x.0, r)) (rw set at h))
    | inr unset ↦ rw unset (file-again p q r signer p.key_file r.key_file refl (rw unset at h) same)
  ]

  was-kept :
      (o : Outcome (LocalRsaSigner Key) × Process Key) (p' : Process Key)
      (signer : LocalRsaSigner Key)
      → keep_signer rsa o ≡ (done signer, p')
      → (o ≡ (done signer, o.1)) × (p' ≡ record (o.1) { signer = some signer })
  unfolding keep_signer
  was-kept (done made, q) p' signer h =
      let same : made ≡ signer = let first = ap (λ x. x.0) h in ground arith in
      (ap (λ x. (x.0, q)) h, rw (← same) (sym (ap (λ x. x.1) h)))
  was-kept (failed e, q) p' signer h = let bad = ap (λ x. x.0) h in cc

  held-restart :
      (p p' : Process Key) (signer : LocalRsaSigner Key) (held : Option (LocalRsaSigner Key))
      → held ≡ none
      → held_signer rsa cfg held p ≡ (done signer, p')
      → get_signer rsa cfg (restart p') ≡ (done signer, p')
  unfolding held_signer get_signer restart from_settings keep_signer
  held-restart p p' signer (some held) fresh h = cc
  held-restart p p' signer none fresh h =
      let q = (from_settings rsa cfg p).1 in
      let (found, same) = was-kept (from_settings rsa cfg p) p' signer h in
      let again =
        pem-again p q (record q { signer = none }) signer (reveal cfg.private_key_pem) found refl in
      rw (same, again) refl

  -- A restart signs with the same key: once `get_signer` returned a signer in a fresh process, the
  -- process that follows it on the same disk and settings gets the same signer, and leaves the disk
  -- as it is.
  pub get_signer-restart :
      (p p' : Process Key) (signer : LocalRsaSigner Key)
      → p.signer ≡ none
      → get_signer rsa cfg p ≡ (done signer, p')
      → get_signer rsa cfg (restart p') ≡ (done signer, p')
  unfolding get_signer
  get_signer-restart p p' signer fresh h = held-restart p p' signer p.signer fresh h

-- The published key is the one that signs: the JWKS lists one key, under the id with which `sign`
-- has every token encoded, and its texts decode, by the table of base64url, to the modulus and the
-- exponent of the signer's key.
pub jwks-publishes :
    {Key Claims : Type 0} (rsa : Rsa Key Claims) (signer : LocalRsaSigner Key)
    → Published rsa signer
unfolding jwks b64url_uint sign
jwks-publishes rsa signer = record {
  jwk = _;
  only = refl;
  same_kid = λ claims. refl;
  modulus = decode-b64 (rsa.modulus signer.private_key);
  exponent = decode-b64 (rsa.exponent signer.private_key);
}
