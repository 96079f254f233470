-- ===== src/Table/Declare.antt =====
-- The macro DEFINE_FIELD of src/dsmr_parser/fields.h, and the numbers that the build may set.
use Prim.Native.String.{String}
use arduino_dsmr.Base.{ℕ, [], false}
use arduino_dsmr.Base.Int.{pos}
use arduino_dsmr.ParseObis.{ObisId}
use arduino_dsmr.Fields.{Kind}
use arduino_dsmr.ParsedData.{Field}

-- A field that has not been read; its value is not meant before that.
abbrev pub define_field : String → ObisId → Kind → Field
define_field fieldname obis field_t = record {
  name = fieldname;
  id = obis;
  kind = field_t;
  value = record { text = []; number = pos 0 };
  present = false;
}

-- DSMR_GAS_MBUS_ID and the others.
pub record MbusIds : Type 0 where
  pub gas : ℕ
  pub water : ℕ
  pub thermal : ℕ
  pub sub : ℕ

-- The numbers that the header sets where the build does not.
abbrev pub default_ids : MbusIds
default_ids = record { gas = 1; water = 2; thermal = 3; sub = 4 }
