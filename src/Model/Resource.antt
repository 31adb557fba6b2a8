-- ===== src/Model/Resource.antt =====
-- internal/model/resource.go and provenance.go: a normalized resource, and where its data is from.
use pepin.Prelude.{ℕ, String, Bool, Option, Dict}

-- A JSON value, `map[string]any` and `[]any` included; a number by its text, and `nil` as `null`.
mutual
  pub data Value : Type 0 where
    null : Value
    bool : Bool → Value
    number : String → Value
    text : String → Value
    array : Values → Value
    object : Fields → Value

  pub data Values : Type 0 where
    end : Values
    item : Value → Values → Values

  pub data Fields : Type 0 where
    stop : Fields
    field : String → Value → Fields → Fields

pub record Attestation : Type 0 where
  pub origin : String
  pub source : String
  pub path : String
  pub observed : Bool
  pub derived : Bool

-- Where the code of the infrastructure declares a resource of a plan.
pub record SourceRef : Type 0 where
  pub file : String
  pub line : ℕ
  pub module_address : String

pub record Resource : Type 0 where
  pub provider : String
  pub type : String
  pub id : String
  pub name : String
  pub region : String
  pub attributes : Dict Value
  pub provenance : Dict Attestation
  pub source : Option SourceRef
