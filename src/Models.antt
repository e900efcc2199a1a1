-- ===== src/Models.antt =====
-- backend/app/models.py: the rows that several parts of the program read, with the columns that
-- the modelled code uses. A UUID is a number; a point in time is a number of seconds.
use pulse_crm.Prelude.{ℕ, String, Bool, true, false, Option, List}

pub data Role : Type 0 where
  owner admin manager employee : Role

abbrev pub is_owner : Role → Bool
is_owner owner = true
is_owner _ = false

abbrev pub is_admin : Role → Bool
is_admin admin = true
is_admin _ = false

abbrev pub is_employee_role : Role → Bool
is_employee_role employee = true
is_employee_role _ = false

-- The equality of two roles.
abbrev pub role_eq : Role → Role → Bool
role_eq owner r = is_owner r
role_eq admin r = is_admin r
role_eq manager manager = true
role_eq manager _ = false
role_eq employee r = is_employee_role r

pub record User : Type 0 where
  pub id : ℕ
  pub email : String
  pub full_name : String
  pub is_active : Bool

pub record Membership : Type 0 where
  pub id : ℕ
  pub workspace_id : ℕ
  pub user_id : ℕ
  pub role : Role
  pub version : ℕ

-- A JSON value, as far as it can be blank: a list or an object is the number of its entries, and
-- `scalar` is a number or a Boolean.
pub data Value : Type 0 where
  null scalar : Value
  text : String → Value
  entries : ℕ → Value

-- An amount is in hundredths.
pub record Deal : Type 0 where
  pub id : ℕ
  pub workspace_id : ℕ
  pub pipeline_id : ℕ
  pub stage_id : ℕ
  pub company_id : Option ℕ
  pub assignee_id : Option ℕ
  pub source_id : Option ℕ
  pub title : String
  pub amount : Option ℕ
  pub custom_fields : List (String × Value)
  pub next_purchase_at : Option ℕ
  pub last_activity_at : ℕ
  pub updated_at : ℕ
  pub version : ℕ
  pub deleted_at : Option ℕ

pub record Contact : Type 0 where
  pub id : ℕ
  pub workspace_id : ℕ
  pub company_id : Option ℕ
  pub assignee_id : Option ℕ
  pub deleted_at : Option ℕ

pub record Company : Type 0 where
  pub id : ℕ
  pub workspace_id : ℕ
  pub deleted_at : Option ℕ

pub record Task : Type 0 where
  pub id : ℕ
  pub workspace_id : ℕ
  pub assignee_id : ℕ
