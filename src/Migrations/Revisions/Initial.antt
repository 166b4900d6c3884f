-- ===== src/Migrations/Revisions/Initial.antt =====
-- The first revision, d78048847fb2.
use mxtng_auth_services.Common.{List, [], ◌∷◌, true, false}
use mxtng_auth_services.Migrations.{
  Op, create_table, drop_table, create_index, drop_index, integer, string, text, boolean, timestamp,
  required, nullable_,
}

-- `upgrade` of d78048847fb2_initial_schema.py
unfoldable pub initial_schema_upgrade : List Op
initial_schema_upgrade =
    create_table (record {
      name = "auth_audit_log";
      columns =
          required "id" integer
          ∷ nullable_ "credential_id" integer
          ∷ required "event" (string 64)
          ∷ nullable_ "email" (string 320)
          ∷ nullable_ "ip" (string 64)
          ∷ nullable_ "detail" text
          ∷ required "created_at" timestamp
          ∷ [];
      primary_key = "id";
      references = [];
      uniques = "id" ∷ [];
      indexes = [];
    })
    ∷ create_index "auth_audit_log" (record {
      name = "ix_auth_audit_log_credential_id";
      column = "credential_id";
      unique = false;
    })
    ∷ create_index "auth_audit_log"
        (record { name = "ix_auth_audit_log_event"; column = "event"; unique = false })
    ∷ create_table (record {
      name = "credentials";
      columns =
          required "id" integer
          ∷ required "auth_user_id" (string 36)
          ∷ required "email" (string 320)
          ∷ nullable_ "password_hash" (string 255)
          ∷ nullable_ "google_sub" (string 255)
          ∷ nullable_ "idempotency_key" (string 255)
          ∷ required "failed_attempts" integer
          ∷ nullable_ "locked_until" timestamp
          ∷ required "disabled" boolean
          ∷ required "created_at" timestamp
          ∷ required "updated_at" timestamp
          ∷ [];
      primary_key = "id";
      references = [];
      uniques = "google_sub" ∷ [];
      indexes = [];
    })
    ∷ create_index "credentials"
        (record { name = "ix_credentials_auth_user_id"; column = "auth_user_id"; unique = true })
    ∷ create_index "credentials"
        (record { name = "ix_credentials_email"; column = "email"; unique = true })
    ∷ create_index "credentials" (record {
      name = "ix_credentials_idempotency_key";
      column = "idempotency_key";
      unique = false;
    })
    ∷ create_table (record {
      name = "oauth_exchange_codes";
      columns =
          required "id" integer
          ∷ required "credential_id" integer
          ∷ required "code_hash" (string 64)
          ∷ required "audience" (string 64)
          ∷ required "expires_at" timestamp
          ∷ required "used" boolean
          ∷ required "created_at" timestamp
          ∷ [];
      primary_key = "id";
      references = ("credential_id", "credentials") ∷ [];
      uniques = [];
      indexes = [];
    })
    ∷ create_index "oauth_exchange_codes"
        (record { name = "ix_oauth_exchange_codes_code_hash"; column = "code_hash"; unique = true })
    ∷ create_index "oauth_exchange_codes" (record {
      name = "ix_oauth_exchange_codes_credential_id";
      column = "credential_id";
      unique = false;
    })
    ∷ create_table (record {
      name = "password_reset_tokens";
      columns =
          required "id" integer
          ∷ required "credential_id" integer
          ∷ required "token_hash" (string 64)
          ∷ required "expires_at" timestamp
          ∷ required "used" boolean
          ∷ required "created_at" timestamp
          ∷ [];
      primary_key = "id";
      references = ("credential_id", "credentials") ∷ [];
      uniques = [];
      indexes = [];
    })
    ∷ create_index "password_reset_tokens" (record {
      name = "ix_password_reset_tokens_credential_id";
      column = "credential_id";
      unique = false;
    })
    ∷ create_index "password_reset_tokens" (record {
      name = "ix_password_reset_tokens_token_hash";
      column = "token_hash";
      unique = true;
    })
    ∷ create_table (record {
      name = "refresh_tokens";
      columns =
          required "id" integer
          ∷ required "credential_id" integer
          ∷ required "family_id" (string 36)
          ∷ required "token_hash" (string 64)
          ∷ required "audience" (string 64)
          ∷ required "expires_at" timestamp
          ∷ required "revoked" boolean
          ∷ required "rotated" boolean
          ∷ required "created_at" timestamp
          ∷ [];
      primary_key = "id";
      references = ("credential_id", "credentials") ∷ [];
      uniques = [];
      indexes = [];
    })
    ∷ create_index "refresh_tokens" (record {
      name = "ix_refresh_tokens_credential_id";
      column = "credential_id";
      unique = false;
    })
    ∷ create_index "refresh_tokens"
        (record { name = "ix_refresh_tokens_family_id"; column = "family_id"; unique = false })
    ∷ create_index "refresh_tokens"
        (record { name = "ix_refresh_tokens_token_hash"; column = "token_hash"; unique = true })
    ∷ []

-- `downgrade` of d78048847fb2_initial_schema.py
unfoldable pub initial_schema_downgrade : List Op
initial_schema_downgrade =
    drop_index "refresh_tokens" "ix_refresh_tokens_token_hash"
    ∷ drop_index "refresh_tokens" "ix_refresh_tokens_family_id"
    ∷ drop_index "refresh_tokens" "ix_refresh_tokens_credential_id"
    ∷ drop_table "refresh_tokens"
    ∷ drop_index "password_reset_tokens" "ix_password_reset_tokens_token_hash"
    ∷ drop_index "password_reset_tokens" "ix_password_reset_tokens_credential_id"
    ∷ drop_table "password_reset_tokens"
    ∷ drop_index "oauth_exchange_codes" "ix_oauth_exchange_codes_credential_id"
    ∷ drop_index "oauth_exchange_codes" "ix_oauth_exchange_codes_code_hash"
    ∷ drop_table "oauth_exchange_codes"
    ∷ drop_index "credentials" "ix_credentials_idempotency_key"
    ∷ drop_index "credentials" "ix_credentials_email"
    ∷ drop_index "credentials" "ix_credentials_auth_user_id"
    ∷ drop_table "credentials"
    ∷ drop_index "auth_audit_log" "ix_auth_audit_log_event"
    ∷ drop_index "auth_audit_log" "ix_auth_audit_log_credential_id"
    ∷ drop_table "auth_audit_log"
    ∷ []
