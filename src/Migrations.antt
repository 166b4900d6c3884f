-- ===== src/Migrations.antt =====
-- The Alembic migrations: the operations on a schema that the revisions use, and the runs of
-- revisions up and down.
pub mod Revisions
pub mod Chain
use mxtng_auth_services.Common.{
  ℕ, zero, suc, ◌==◌, String, Bool, true, false, not, ◌&&◌, ◌||◌, Option, none, some, List, [], ◌∷◌,
  ◌++◌, any, select, update, str_eq, if◌then◌else◌,
}

pub data ColumnType : Type 0 where
  integer text boolean timestamp : ColumnType
  string : ℕ → ColumnType

pub record Column : Type 0 where
  pub name : String
  pub kind : ColumnType
  pub nullable : Bool

abbrev pub required : String → ColumnType → Column
required name kind = record { name = name; kind = kind; nullable = false }

abbrev pub nullable_ : String → ColumnType → Column
nullable_ name kind = record { name = name; kind = kind; nullable = true }

pub record Index : Type 0 where
  pub name : String
  pub column : String
  pub unique : Bool

-- A table; `references` are the columns that hold an id of another table.
pub record Table : Type 0 where
  pub name : String
  pub columns : List Column
  pub primary_key : String
  pub references : List (String × String)
  pub uniques : List String
  pub indexes : List Index

abbrev pub Schema : Type 0
Schema = List Table

pub data Op : Type 0 where
  create_table : Table → Op
  drop_table : String → Op
  create_index : String → Index → Op
  drop_index : String → String → Op
  add_column : String → Column → Op
  drop_column : String → String → Op

pub record Revision : Type 0 where
  pub upgrade : List Op
  pub downgrade : List Op

abbrev pub is_table : String → Table → Bool
is_table name t = str_eq t.name name

abbrev pub has_column : String → Table → Bool
has_column name t = any (λ (c : Column). str_eq c.name name) t.columns

abbrev pub has_index : String → Table → Bool
has_index name t = any (λ (i : Index). str_eq i.name name) t.indexes

-- A row of another table may hold an id of this one.
abbrev pub is_referenced : String → Schema → Bool
is_referenced name s = any (λ (t : Table). any (λ r. str_eq r.1 name) t.references) s

abbrev pub every : {A : Type 0} → (A → Bool) → List A → Bool
every p [] = true
every p (x ∷ xs) = p x && every p xs

abbrev pub guarded : Bool → Schema → Option Schema
guarded true s = some s
guarded false s = none

-- One operation; the database refuses what does not fit its schema.
unfoldable pub apply_op : Op → Schema → Option Schema
apply_op (create_table t) s =
    guarded (not (any (is_table t.name) s) && every (λ r. any (is_table r.1) s) t.references)
      (s ++ t ∷ [])
apply_op (drop_table name) s =
    guarded (any (is_table name) s && not (is_referenced name s))
      (select (λ t. not (is_table name t)) s)
apply_op (create_index name i) s =
    guarded (any (λ t. is_table name t && (has_column i.column t && not (has_index i.name t))) s)
      (update (is_table name) (λ t. record t { indexes = t.indexes ++ i ∷ [] }) s)
apply_op (drop_index name index) s = guarded (any (λ t. is_table name t && has_index index t) s) (
    update (is_table name)
      (λ t. record t { indexes = select (λ i. not (str_eq i.name index)) t.indexes }) s)
apply_op (add_column name c) s =
    guarded (any (λ t. is_table name t && not (has_column c.name t)) s)
      (update (is_table name) (λ t. record t { columns = t.columns ++ c ∷ [] }) s)
apply_op (drop_column name column) s =
    guarded (any (λ t. is_table name t && has_column column t) s) (
      update (is_table name)
        (λ t. record t { columns = select (λ c. not (str_eq c.name column)) t.columns }) s)

abbrev pub and_then : Option Schema → (Schema → Option Schema) → Option Schema
and_then none f = none
and_then (some s) f = f s

unfoldable pub apply_all : List Op → Schema → Option Schema
unfolding apply_op
apply_all [] s = some s
apply_all (o ∷ ops) s = and_then (apply_op o s) (apply_all ops)

-- `alembic upgrade`: the first revisions of the chain, one after another.
unfoldable pub upgrade_to : ℕ → List Revision → Schema → Option Schema
unfolding apply_all
upgrade_to zero rs s = some s
upgrade_to (suc n) [] s = some s
upgrade_to (suc n) (r ∷ rs) s = and_then (apply_all r.upgrade s) (upgrade_to n rs)

-- `alembic downgrade`: the last revisions of the first `k`, undone in the other order, down to the
-- first `j`.
unfoldable pub downgrade_to : ℕ → ℕ → List Revision → Schema → Option Schema
unfolding apply_all
downgrade_to j zero rs s = some s
downgrade_to j (suc k) [] s = some s
downgrade_to zero (suc k) (r ∷ rs) s = and_then (downgrade_to zero k rs s) (apply_all r.downgrade)
downgrade_to (suc j) (suc k) (r ∷ rs) s = downgrade_to j k rs s
