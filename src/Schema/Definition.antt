-- ===== src/Schema/Definition.antt =====
-- src/schema/definition.rs: what an index definition holds.
use edgewit.Prelude.{Bool, Option, Text, Assoc, ascii}
use edgewit.Json.{Value}

pub data SchemaMode : Type 0 where
  strict drop_unmapped dynamic : SchemaMode

pub data PartitionStrategy : Type 0 where
  none daily hourly monthly : PartitionStrategy

pub data CompressionOption : Type 0 where
  none zstd lz4 : CompressionOption

pub data FieldType : Type 0 where
  text keyword datetime integer float boolean bytes : FieldType

pub record FieldDefinition : Type 0 where
  pub field_type : FieldType
  pub indexed : Bool
  pub stored : Bool
  pub fast : Bool
  pub optional : Bool
  pub default : Option Value

-- The two maps are `HashMap`s: their entries stand in some order of iteration.
pub record IndexDefinition : Type 0 where
  pub name : Text
  pub description : Option Text
  pub timestamp_field : Text
  pub mode : SchemaMode
  pub partition : PartitionStrategy
  pub retention : Option Text
  pub compression : CompressionOption
  pub fields : Assoc FieldDefinition
  pub settings : Assoc Value

unfoldable pub default_timestamp_field : Text
default_timestamp_field = ascii "timestamp"
