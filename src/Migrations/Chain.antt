-- ===== src/Migrations/Chain.antt =====
-- Every migration applies, and every downgrade undoes it.
use mxtng_auth_services.Common.{
  ℕ, suc, ◌<◌, ◌≤◌, ◌≡◌, refl, ◌==◌, String, Bool, true, false, not, ◌&&◌, Option, some, List, [],
  any, str_eq, arith, length, all_below, below,
}
use mxtng_auth_services.Migrations.{
  ColumnType, integer, text, boolean, timestamp, string, Column, Index, Table, Schema, every,
  and_then, upgrade_to, downgrade_to,
}
use mxtng_auth_services.Migrations.Revisions.{
  revisions, sign_in_challenges_upgrade, sign_in_challenges_downgrade, sessions_table_upgrade,
  sessions_table_downgrade, oauth_states_table_upgrade, oauth_states_table_downgrade,
}
use mxtng_auth_services.Migrations.Revisions.Initial.{
  initial_schema_upgrade, initial_schema_downgrade,
}

abbrev same_type : ColumnType → ColumnType → Bool
same_type integer integer = true
same_type text text = true
same_type boolean boolean = true
same_type timestamp timestamp = true
same_type (string n) (string m) = n == m
same_type _ _ = false

abbrev same_bool : Bool → Bool → Bool
same_bool true b = b
same_bool false b = not b

abbrev same_column : Column → Column → Bool
same_column c d =
    str_eq c.name d.name && (same_type c.kind d.kind && same_bool c.nullable d.nullable)

abbrev same_index : Index → Index → Bool
same_index i j = str_eq i.name j.name && (str_eq i.column j.column && same_bool i.unique j.unique)

abbrev same_reference : String × String → String × String → Bool
same_reference r q = str_eq r.0 q.0 && str_eq r.1 q.1

-- The same elements, in whatever order, where none comes twice.
abbrev same_set : {A : Type 0} → (A → A → Bool) → List A → List A → Bool
same_set same xs ys = (length xs == length ys) && every (λ x. any (same x) ys) xs

abbrev same_table : Table → Table → Bool
same_table t u =
    str_eq t.name u.name
    && (str_eq t.primary_key u.primary_key
        && (same_set same_column t.columns u.columns
            && (same_set same_reference t.references u.references
                && (same_set str_eq t.uniques u.uniques
                    && same_set same_index t.indexes u.indexes))))

-- Both runs went through, and left the same tables, with the same columns and indexes, in whatever
-- order.
abbrev pub same_schema : Option Schema → Option Schema → Bool
same_schema (some s) (some r) = same_set same_table s r
same_schema _ _ = false

-- Up by `k` revisions from an empty database, and back down to the first `j`.
abbrev pub there_and_back : ℕ → ℕ → Option Schema
there_and_back j k = and_then (upgrade_to k revisions []) (downgrade_to j k revisions)

abbrev returns : ℕ → ℕ → Bool
returns j k = same_schema (there_and_back j k) (upgrade_to j revisions [])

all-return : all_below 5 (λ k. all_below (suc k) (λ j. returns j k)) ≡ true
unfolding upgrade_to downgrade_to initial_schema_upgrade initial_schema_downgrade
    sign_in_challenges_upgrade sign_in_challenges_downgrade sessions_table_upgrade
    sessions_table_downgrade oauth_states_table_upgrade oauth_states_table_downgrade
all-return = refl

-- From an empty database, each of the revisions up to any of the four goes through, and so does
-- each downgrade back to any earlier one, which leaves the schema that the upgrades to that one make:
-- the same tables with the same columns, references and indexes.
pub downgrade-undoes :
    (j k : ℕ) → j ≤ k → k < 5 → same_schema (there_and_back j k) (upgrade_to j revisions []) ≡ true
downgrade-undoes j k h fits =
    below (suc k) j (λ j. returns j k)
      (below 5 k (λ k. all_below (suc k) (λ j. returns j k)) all-return fits) (omega arith)
