-- ===== src/Signer.antt =====
-- signer.py: the RS256 signing key of the process, where it comes from, and the JWKS that publishes
-- it. RSA itself and PyJWT are parameters.
pub mod Keys
use Prim.Native.Char.{code}
use Prim.Native.String
use mxtng_auth_services.Common.{
  ℕ, suc, ◌+◌, ◌/◌, String, Bool, true, false, not, ◌&&◌, Option, none, some, List, [], ◌∷◌, ltb,
  truthy, if◌then◌else◌,
}
use mxtng_auth_services.Text.{take}
use mxtng_auth_services.Settings.{Settings, is_development, reveal}
use mxtng_auth_services.Base64.{bit_length, to_bytes, urlsafe_b64encode, rstrip_pad}

-- What `load_pem_private_key` answers: an RSA key, a key of another kind, or a ValueError.
pub data Loaded (Key : Type 0) : Type 0 where
  rsa_key : Key → Loaded Key
  other_key : Loaded Key
  bad_pem : Loaded Key

-- The cryptography library, hashlib and PyJWT: `generate` takes the number of the draw, and
-- `encode_jwt` the claims, the PEM of the key and its id.
pub record Rsa (Key : Type 0) (Claims : Type 0) : Type 0 where
  pub generate : ℕ → Key
  pub private_pem : Key → String
  pub public_pem : Key → String
  pub modulus : Key → ℕ
  pub exponent : Key → ℕ
  pub load_pem : String → Loaded Key
  pub sha256_hexdigest : String → String
  pub encode_jwt : Claims → String → String → String

pub data SignerError : Type 0 where
  missing_signing_key : String → SignerError
  value_error : String → SignerError

pub data Outcome (A : Type 0) : Type 0 where
  done : A → Outcome A
  failed : SignerError → Outcome A

pub record LocalRsaSigner (Key : Type 0) : Type 0 where
  pub private_key : Key
  pub pem : String
  pub kid : String

-- The process and its disk: the file at PRIVATE_KEY_PATH, the number of keys that were made, and
-- the signer that the process holds.
pub record Process (Key : Type 0) : Type 0 where
  pub key_file : Option String
  pub generated : ℕ
  pub signer : Option (LocalRsaSigner Key)

pub record Jwk : Type 0 where
  pub kty : String
  pub use_ : String
  pub alg : String
  pub kid : String
  pub n : String
  pub e : String

-- `_b64url_uint`
unfoldable pub b64url_uint : ℕ → String
b64url_uint value = rstrip_pad (urlsafe_b64encode (to_bytes ((bit_length value + 7) / 8) value))

-- `pem.encode("ascii")` goes through.
unfoldable pub is_ascii : String → Bool
is_ascii String.[] = true
is_ascii (String.◌∷◌ c s) = ltb (code c) 128 && is_ascii s

abbrev pub or_text : Option String → String → String
or_text none other = other
or_text (some t) other = if truthy (some t) then t else other

module _ {Key Claims : Type 0} (rsa : Rsa Key Claims) where
  -- `_derive_kid`
  unfoldable pub derive_kid : String → String
  derive_kid public_pem = take 16 (rsa.sha256_hexdigest public_pem)

  -- `cls(private_key, kid)`
  unfoldable pub make_signer : Settings → Key → LocalRsaSigner Key
  make_signer cfg key = record {
    private_key = key;
    pem = rsa.private_pem key;
    kid = or_text cfg.key_id (derive_kid (rsa.public_pem key));
  }

  unfoldable pub accept : Settings → Loaded Key → Outcome (LocalRsaSigner Key)
  accept cfg (rsa_key key) = done (make_signer cfg key)
  accept cfg other_key = failed (value_error "Signing key must be RSA")
  accept cfg bad_pem = failed (value_error "Unable to load PEM file")

  -- The rest of `from_settings`, once it has its PEM.
  unfoldable pub load_signer : Settings → String → Outcome (LocalRsaSigner Key)
  load_signer cfg pem =
      if is_ascii pem then accept cfg (rsa.load_pem pem) else failed (value_error "not ASCII")

  -- Neither the settings nor the disk hold a key.
  unfoldable pub invent_key : Settings → Process Key → Outcome (LocalRsaSigner Key) × Process Key
  invent_key cfg p =
      if is_development cfg
      then (
        load_signer cfg (rsa.private_pem (rsa.generate p.generated)),
        record p {
          key_file = some (rsa.private_pem (rsa.generate p.generated));
          generated = suc p.generated;
        },
      )
      else (failed (missing_signing_key cfg.private_key_path), p)

  unfoldable pub read_key_file :
      Settings → Option String → Process Key → Outcome (LocalRsaSigner Key) × Process Key
  read_key_file cfg (some pem) p = (load_signer cfg pem, p)
  read_key_file cfg none p = invent_key cfg p

  -- `from_settings`, with the PEM of the settings at hand.
  unfoldable pub pem_or_file :
      Settings → Option String → Process Key → Outcome (LocalRsaSigner Key) × Process Key
  pem_or_file cfg none p = read_key_file cfg p.key_file p
  pem_or_file cfg (some pem) p =
      if truthy (some pem) then (load_signer cfg pem, p) else read_key_file cfg p.key_file p

  unfoldable pub from_settings : Settings → Process Key → Outcome (LocalRsaSigner Key) × Process Key
  from_settings cfg p = pem_or_file cfg (reveal cfg.private_key_pem) p

  -- `_signer = …`, once `from_settings` returned.
  unfoldable pub keep_signer :
      Outcome (LocalRsaSigner Key) × Process Key → Outcome (LocalRsaSigner Key) × Process Key
  keep_signer (done signer, p) = (done signer, record p { signer = some signer })
  keep_signer (failed e, p) = (failed e, p)

  -- `get_signer`, with the signer of the process at hand.
  unfoldable pub held_signer :
      Settings
      → Option (LocalRsaSigner Key)
      → Process Key
      → Outcome (LocalRsaSigner Key) × Process Key
  held_signer cfg (some signer) p = (done signer, p)
  held_signer cfg none p = keep_signer (from_settings cfg p)

  unfoldable pub get_signer : Settings → Process Key → Outcome (LocalRsaSigner Key) × Process Key
  get_signer cfg p = held_signer cfg p.signer p

  unfoldable pub sign : LocalRsaSigner Key → Claims → String
  sign signer claims = rsa.encode_jwt claims signer.pem signer.kid

  unfoldable pub jwks : LocalRsaSigner Key → List Jwk
  jwks signer =
      record {
        kty = "RSA";
        use_ = "sig";
        alg = "RS256";
        kid = signer.kid;
        n = b64url_uint (rsa.modulus signer.private_key);
        e = b64url_uint (rsa.exponent signer.private_key);
      }
      ∷ []

-- The end of the process: the disk stays.
unfoldable pub restart : {Key : Type 0} → Process Key → Process Key
restart p = record p { signer = none }

unfoldable pub set_signer : {Key : Type 0} → LocalRsaSigner Key → Process Key → Process Key
set_signer signer p = record p { signer = some signer }
