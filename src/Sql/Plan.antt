-- ===== src/Sql/Plan.antt =====
-- The data of crates/graphnight-sql/src/generator.rs that the generator hands to a dialect, and the
-- statement that comes back.
use graphnight.Base.{ℕ, String, Bool, Option, List, []}
use graphnight.Core.Models.{Value}

pub data ValueMode : Type 0 where
  placeholder literal : ValueMode

pub record GeneratedSql : Type 0 where
  pub sql : String
  pub params : List Value
  pub display : String

-- `GeneratedSql::literal`.
abbrev pub literal_sql : String → GeneratedSql
literal_sql sql = record { sql = sql; params = []; display = sql }

pub record SelectItem : Type 0 where
  pub expression : String
  pub alias : Option String

pub record OrderByItem : Type 0 where
  pub column : String
  pub descending : Bool

pub record JoinClause : Type 0 where
  pub join_type : String
  pub table : String
  pub alias : String
  pub on : String

pub record LogicalPlan : Type 0 where
  pub source_table : String
  pub source_is_sql : Bool
  pub source_alias : String
  pub select_items : List SelectItem
  pub where_clause : Option String
  pub group_by : List String
  pub order_by : List OrderByItem
  pub limit : Option ℕ
  pub offset : Option ℕ
  pub joins : List JoinClause
  pub distinct : Bool
  pub params : List Value
