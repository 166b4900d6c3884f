-- ===== src/Migrations/Revisions.antt =====
-- The revisions of src/migrations/versions, in their order, as the operations that they run.
pub mod Initial
use mxtng_auth_services.Common.{List, [], ◌∷◌, true, false}
use mxtng_auth_services.Migrations.{
  Op, create_table, drop_table, create_index, drop_index, add_column, drop_column, integer, string,
  text, boolean, timestamp, required, nullable_, Revision,
}
use mxtng_auth_services.Migrations.Revisions.Initial.{
  initial_schema_upgrade, initial_schema_downgrade,
}

-- `upgrade` of b3f1a92c77de_sign_in_challenges.py
unfoldable pub sign_in_challenges_upgrade : List Op
sign_in_challenges_upgrade =
    create_table (record {
      name = "sign_in_challenges";
      columns =
          required "id" integer
          ∷ required "challenge_id" (string 64)
          ∷ required "credential_id" integer
          ∷ required "code_hash" (string 255)
          ∷ required "audience" (string 64)
          ∷ required "expires_at" timestamp
          ∷ required "attempts" integer
          ∷ required "sends" integer
          ∷ required "last_sent_at" timestamp
          ∷ required "consumed" boolean
          ∷ required "created_at" timestamp
          ∷ [];
      primary_key = "id";
      references = ("credential_id", "credentials") ∷ [];
      uniques = [];
      indexes = [];
    })
    ∷ create_index "sign_in_challenges" (record {
      name = "ix_sign_in_challenges_challenge_id";
      column = "challenge_id";
      unique = true;
    })
    ∷ create_index "sign_in_challenges" (record {
      name = "ix_sign_in_challenges_credential_id";
      column = "credential_id";
      unique = false;
    })
    ∷ drop_table "oauth_exchange_codes"
    ∷ []

-- `downgrade` of b3f1a92c77de_sign_in_challenges.py
unfoldable pub sign_in_challenges_downgrade : List Op
sign_in_challenges_downgrade =
    create_table (record {
      name = "oauth_exchange_codes";
      columns =
          required "id" integer
          ∷ required "credential_id" integer
          ∷ required "code_hash" (string 64)
          ∷ required "audience" (string 64)
          ∷ required "expires_at" timestamp
          ∷ required "used" boolean
          ∷ required "created_at" timestamp
          ∷ [];
      primary_key = "id";
      references = ("credential_id", "credentials") ∷ [];
      uniques = [];
      indexes = [];
    })
    ∷ create_index "oauth_exchange_codes"
        (record { name = "ix_oauth_exchange_codes_code_hash"; column = "code_hash"; unique = true })
    ∷ create_index "oauth_exchange_codes" (record {
      name = "ix_oauth_exchange_codes_credential_id";
      column = "credential_id";
      unique = false;
    })
    ∷ drop_index "sign_in_challenges" "ix_sign_in_challenges_credential_id"
    ∷ drop_index "sign_in_challenges" "ix_sign_in_challenges_challenge_id"
    ∷ drop_table "sign_in_challenges"
    ∷ []

-- `upgrade` of c7d4e1b90a52_sessions.py
unfoldable pub sessions_table_upgrade : List Op
sessions_table_upgrade =
    create_table (record {
      name = "sessions";
      columns =
          required "id" integer
          ∷ required "session_id" (string 36)
          ∷ required "credential_id" integer
          ∷ required "audience" (string 64)
          ∷ nullable_ "family_id" (string 36)
          ∷ required "revoked" boolean
          ∷ nullable_ "revoked_reason" (string 32)
          ∷ nullable_ "revoked_at" timestamp
          ∷ nullable_ "ip" (string 64)
          ∷ nullable_ "user_agent" (string 255)
          ∷ required "created_at" timestamp
          ∷ required "last_seen_at" timestamp
          ∷ [];
      primary_key = "id";
      references = ("credential_id", "credentials") ∷ [];
      uniques = [];
      indexes = [];
    })
    ∷ create_index "sessions"
        (record { name = "ix_sessions_session_id"; column = "session_id"; unique = true })
    ∷ create_index "sessions"
        (record { name = "ix_sessions_credential_id"; column = "credential_id"; unique = false })
    ∷ create_index "sessions"
        (record { name = "ix_sessions_family_id"; column = "family_id"; unique = false })
    ∷ []

-- `downgrade` of c7d4e1b90a52_sessions.py
unfoldable pub sessions_table_downgrade : List Op
sessions_table_downgrade =
    drop_index "sessions" "ix_sessions_family_id"
    ∷ drop_index "sessions" "ix_sessions_credential_id"
    ∷ drop_index "sessions" "ix_sessions_session_id"
    ∷ drop_table "sessions"
    ∷ []

-- `upgrade` of e5c2a71f4b38_oauth_state_and_email_verification.py
unfoldable pub oauth_states_table_upgrade : List Op
oauth_states_table_upgrade =
    create_table (record {
      name = "oauth_states";
      columns =
          required "id" integer
          ∷ required "state_hash" (string 64)
          ∷ required "expires_at" timestamp
          ∷ required "consumed" boolean
          ∷ required "created_at" timestamp
          ∷ [];
      primary_key = "id";
      references = [];
      uniques = [];
      indexes = [];
    })
    ∷ create_index "oauth_states"
        (record { name = "ix_oauth_states_state_hash"; column = "state_hash"; unique = true })
    ∷ create_index "oauth_states"
        (record { name = "ix_oauth_states_expires_at"; column = "expires_at"; unique = false })
    ∷ add_column "credentials" (nullable_ "email_verified_at" timestamp)
    ∷ []

-- `downgrade` of e5c2a71f4b38_oauth_state_and_email_verification.py
unfoldable pub oauth_states_table_downgrade : List Op
oauth_states_table_downgrade =
    drop_column "credentials" "email_verified_at"
    ∷ drop_index "oauth_states" "ix_oauth_states_expires_at"
    ∷ drop_index "oauth_states" "ix_oauth_states_state_hash"
    ∷ drop_table "oauth_states"
    ∷ []

abbrev pub revisions : List Revision
revisions =
    record { upgrade = initial_schema_upgrade; downgrade = initial_schema_downgrade }
    ∷ record { upgrade = sign_in_challenges_upgrade; downgrade = sign_in_challenges_downgrade }
    ∷ record { upgrade = sessions_table_upgrade; downgrade = sessions_table_downgrade }
    ∷ record { upgrade = oauth_states_table_upgrade; downgrade = oauth_states_table_downgrade }
    ∷ []
