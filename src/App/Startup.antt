-- ===== src/App/Startup.antt =====
-- When the service starts, and what it has done by then.
use mxtng_auth_services.Common.{
  String, ◌≡◌, ◌∙◌, refl, Bool, true, false, ◌&&◌, ◌||◌, Option, none, some, is_some, List, [],
  ◌++◌, truthy, arith, any, any-append,
}
use mxtng_auth_services.Settings.{Settings, is_development, fallback_smtp_enabled}
use mxtng_auth_services.Signer.{Rsa, LocalRsaSigner, Process, Outcome, done, failed, get_signer}
use mxtng_auth_services.Invariants.Distinct.Keys.{has, Distinct}
use mxtng_auth_services.Invariants.Distinct.Introspection.{
  itself, unique_ids-mem, unique_ids-Distinct,
}
use mxtng_auth_services.App.{
  LogLine, Started, up, down, Host, check_mail_configuration, create_tables, announce, lifespan,
  cors_origins, fallback_cors_origins, create_app,
}

abbrev pub is_up : Started → Bool
is_up up = true
is_up (down _) = false

abbrev pub is_done : {A : Type 0} → Outcome A → Bool
is_done (done _) = true
is_done (failed _) = false

-- Mail can leave the service.
abbrev pub has_mail_path : Settings → Bool
has_mail_path cfg = truthy cfg.mail_relay_url || fallback_smtp_enabled cfg

-- What `lifespan` answers and leaves behind.
pub record Boot {Key Claims : Type 0} (rsa : Rsa Key Claims) (cfg : Settings) (h : Host Key)
    : Type 0 where
  pub starts :
      is_up (lifespan rsa cfg h).0 ≡ (is_done (get_signer rsa cfg h.process).0 && has_mail_path cfg)
  pub process : (lifespan rsa cfg h).1.process ≡ (get_signer rsa cfg h.process).1
  pub tables :
      (lifespan rsa cfg h).1.tables_created
      ≡ (h.tables_created || (is_up (lifespan rsa cfg h).0 && is_development cfg))

mail-checked : (cfg : Settings) → is_some (check_mail_configuration cfg) ≡ has_mail_path cfg
unfolding check_mail_configuration
mail-checked cfg = ground arith

-- The tables are created where the mail configuration passes, in development.
created :
    {Key : Type 0} (cfg : Settings) (o : Option (List LogLine)) (h : Host Key)
    → (is_up (create_tables cfg o h).0 ≡ is_some o)
      × ((create_tables cfg o h).1.process ≡ h.process)
      × ((create_tables cfg o h).1.tables_created
          ≡ (h.tables_created || (is_up (create_tables cfg o h).0 && is_development cfg)))
unfolding create_tables
created cfg none h = (refl, refl, ground arith)
created cfg (some lines) h = (refl, refl, ground arith)

announced :
    {Key : Type 0} (cfg : Settings) (o : Outcome (LocalRsaSigner Key) × Process Key) (h : Host Key)
    → (is_up (announce cfg o h).0 ≡ (is_done o.0 && has_mail_path cfg))
      × ((announce cfg o h).1.process ≡ o.1)
      × ((announce cfg o h).1.tables_created
          ≡ (h.tables_created || (is_up (announce cfg o h).0 && is_development cfg)))
unfolding announce
announced cfg (failed e, p) h = (refl, refl, ground arith)
announced cfg (done signer, p) h =
    let (a, b, c) = created cfg (check_mail_configuration cfg) _ in (a ∙ mail-checked cfg, b, c)

-- With settings that are accepted and a database that takes the tables, `lifespan` gets to its
-- `yield` exactly when `get_signer` returns a signer and there is a way to send mail, the relay or
-- the fallback server; the signer and the key file are what `get_signer` leaves; and the tables are
-- created only by a start in development.
pub lifespan-Boot :
    {Key Claims : Type 0} (rsa : Rsa Key Claims) (cfg : Settings) (h : Host Key) → Boot rsa cfg h
unfolding lifespan
lifespan-Boot rsa cfg h =
    let (a, b, c) = announced cfg (get_signer rsa cfg h.process) h in
    record { starts = a; process = b; tables = c }

-- The origins that browsers may call the service from, and the pages that describe it.
pub record Exposed (cfg : Settings) : Type 0 where
  pub once : Distinct itself (create_app cfg).allow_origins
  pub origins :
      (origin : String)
      → any (has itself origin) (create_app cfg).allow_origins ≡ (
          any (has itself origin) cfg.cors_origins || any (has itself origin) fallback_cors_origins)
  pub docs : is_some (create_app cfg).docs_url ≡ is_development cfg
  pub redoc : is_some (create_app cfg).redoc_url ≡ is_development cfg
  pub openapi : is_some (create_app cfg).openapi_url ≡ is_development cfg

-- An origin is allowed exactly when it is configured or one of the two fallback origins, and is
-- listed once; the documentation pages are served in development only.
pub create_app-Exposed : (cfg : Settings) → Exposed cfg
unfolding create_app cors_origins
create_app-Exposed cfg = record {
  once = unique_ids-Distinct [] (cfg.cors_origins ++ fallback_cors_origins);
  origins = λ origin.
      unique_ids-mem origin [] (cfg.cors_origins ++ fallback_cors_origins)
      ∙ ground (arith, any-append (has itself origin) cfg.cors_origins fallback_cors_origins);
  docs = ground arith;
  redoc = ground arith;
  openapi = ground arith;
}
