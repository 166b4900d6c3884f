-- ===== src/Tests/Service.antt =====
-- A toy RSA, two webhook receivers, and the theorems on the service's edges applied to them.
use mxtng_auth_services.Common.{
  not, ◌||◌, ◌&&◌, arith, ℕ, ◌+◌, ◌≡◌, refl, String, true, false, none, some, List, [], ◌∷◌,
}
use mxtng_auth_services.Settings.{Settings, staging}
use mxtng_auth_services.World.{RenderedMessage, World}
use mxtng_auth_services.Action.{init}
use mxtng_auth_services.Api.{logs_out}
use mxtng_auth_services.Signer.{
  Rsa, rsa_key, LocalRsaSigner, Process, done, get_signer, held_signer, from_settings, pem_or_file,
  read_key_file, invent_key, keep_signer, load_signer, accept, make_signer, derive_kid, restart,
  is_ascii,
}
use mxtng_auth_services.Signer.Keys.{
  KeyKept, get_signer-KeyKept, get_signer-restart, Published, jwks-publishes,
}
use mxtng_auth_services.App.{Host, header, security_headers, HeaderList}
use mxtng_auth_services.App.Startup.{Boot, lifespan-Boot, Exposed, create_app-Exposed}
use mxtng_auth_services.App.Headers.{baseline, or_default, header-security_headers}
use mxtng_auth_services.Ratelimit.{reset, client_ip}
use mxtng_auth_services.Ratelimit.Unswept.{Hit, Slots, answers, plain_answers, answers-unswept}
use mxtng_auth_services.Endpoint.{answer, respond}
use mxtng_auth_services.Endpoint.Calls.{Web, Origin, Server}
use mxtng_auth_services.Endpoint.Verifying.{Verifies, dispatch-Verifies}
use mxtng_auth_services.Endpoint.Cookies.{earned, answer-cookies}
use mxtng_auth_services.Text.{take}
use mxtng_auth_services.Settings.{is_development}
use mxtng_auth_services.Settings.{enforce_secrets, bad_cookie_policy}
use mxtng_auth_services.Settings.Boot.{is_refused, is_hardened, is_consistent, validators-hardened}
use mxtng_auth_services.Migrations.{upgrade_to}
use mxtng_auth_services.Migrations.Revisions.{revisions}
use mxtng_auth_services.Migrations.Chain.{same_schema, there_and_back, downgrade-undoes}
use mxtng_auth_services.Tests.{demo, demo_settings}

abbrev toy : Rsa ℕ String
toy = record {
  generate = λ n. n + 3233;
  private_pem = λ k. "PEM";
  public_pem = λ k. "public";
  modulus = λ k. k;
  exponent = λ k. 65537;
  load_pem = λ pem. rsa_key 3233;
  sha256_hexdigest = λ s. "0123456789abcdef0123456789abcdef";
  encode_jwt = λ claims pem kid. claims;
}

abbrev toy_signer : LocalRsaSigner ℕ
toy_signer = record { private_key = 3233; pem = "PEM"; kid = "0123456789abcdef" }

abbrev fresh : Process ℕ
fresh = record { key_file = none; generated = 0; signer = none }

abbrev running : Process ℕ
running = record { key_file = some "PEM"; generated = 1; signer = some toy_signer }

abbrev staging_settings : Settings
staging_settings = record demo_settings { environment = staging }

first_start : get_signer toy demo_settings fresh ≡ (done toy_signer, running)
unfolding get_signer held_signer from_settings pem_or_file read_key_file invent_key keep_signer
    load_signer accept make_signer derive_kid is_ascii is_development take
first_start = refl

get_signer-restart_example :
    get_signer toy demo_settings (restart running) ≡ (done toy_signer, running)
get_signer-restart_example =
    get_signer-restart toy demo_settings fresh running toy_signer refl first_start

get_signer-KeyKept_example : KeyKept ℕ String toy staging_settings fresh
unfolding is_development
get_signer-KeyKept_example = get_signer-KeyKept toy staging_settings fresh refl

jwks-publishes_example : Published toy toy_signer
jwks-publishes_example = jwks-publishes toy toy_signer

abbrev host : Host ℕ
host = record { process = fresh; logs = []; tables_created = false }

lifespan-Boot_example : Boot toy demo_settings host
lifespan-Boot_example = lifespan-Boot toy demo_settings host

create_app-Exposed_example : Exposed staging_settings
create_app-Exposed_example = create_app-Exposed staging_settings

abbrev some_headers : HeaderList
some_headers = ("cache-control", "private") ∷ ("content-type", "application/json") ∷ []

header-security_headers_example :
    header "cache-control" (security_headers demo_settings some_headers)
    ≡ or_default (header "cache-control" some_headers) (baseline demo_settings "cache-control")
header-security_headers_example = header-security_headers demo_settings "cache-control" some_headers

abbrev web : Web
web = record { parse_email = λ s. some s; urlencode = λ ps. "query"; published = some [] }

abbrev origin : Origin
origin = record {
  forwarded = none;
  host = some "1.2.3.4";
  user_agent = none;
  cookies = ("mxtng_refresh", "raw") ∷ [];
  admin_key = none;
}

abbrev server : Server
server = record { limiter = reset; state = init 0 }

dispatch-Verifies_example :
    Verifies web demo 60000000 origin (record { challenge_id = "ch"; code = "123456" }) server true
unfolding reset client_ip
dispatch-Verifies_example =
    dispatch-Verifies web demo origin (record { challenge_id = "ch"; code = "123456" }) 60000000
      server

answer-cookies_example :
    (answer (respond (λ ps. "query") (logs_out (some "raw")) demo (init 0)).0).cookies
    ≡ earned demo (init 0) (logs_out (some "raw"))
answer-cookies_example = answer-cookies (λ ps. "query") demo (logs_out (some "raw")) (init 0)

abbrev message : RenderedMessage
message = record { subject = "Hi"; html_body = "<p>Hi</p>"; text_body = "Hi" }

-- Two receivers are registered.
abbrev hooked : World
hooked = record demo {
  settings = record demo_settings {
    webhook_endpoints = "https://a.example" ∷ "https://b.example" ∷ [];
    webhook_secret = some "hush";
  };
}

abbrev two_hits : List Hit
two_hits =
    record { delay = 0; bucket = "login"; key = "1.2.3.4"; limit = 1 }
    ∷ record { delay = 61000000; bucket = "login"; key = "1.2.3.4"; limit = 1 }
    ∷ []

abbrev no_slots : Slots
no_slots b k = none

answers-unswept_example : answers 0 60 two_hits reset ≡ plain_answers 0 60 two_hits no_slots
unfolding reset
answers-unswept_example = answers-unswept 0 60 two_hits reset no_slots (λ b k. refl)

downgrade-undoes_example : same_schema (there_and_back 1 4) (upgrade_to 1 revisions []) ≡ true
downgrade-undoes_example = downgrade-undoes 1 4 (omega arith) (omega arith)

validators-hardened_example :
    (bad_cookie_policy staging_settings || is_refused (enforce_secrets staging_settings))
    ≡ not (
        is_consistent staging_settings
        && (is_development staging_settings || is_hardened staging_settings))
validators-hardened_example = validators-hardened staging_settings
