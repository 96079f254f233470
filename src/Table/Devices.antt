-- ===== src/Table/Devices.antt =====
-- Field definitions of src/dsmr_parser/fields.h, lines 561–624. Gas, thermal, water and sub meters, which stand on the buses `ids`.
use arduino_dsmr.Base.{[], ◌∷◌}
use arduino_dsmr.ParseObis.{obis_id}
use arduino_dsmr.Fields.{
  fixed_field, hex_string_or_regular_string_field, int_field, raw_field, timestamped_fixed_field,
}
use arduino_dsmr.ParsedData.{ParsedData}
use arduino_dsmr.Table.Declare.{define_field, MbusIds}
use arduino_dsmr.Table.Units

abbrev pub device_fields : MbusIds → ParsedData
device_fields ids =
    define_field "active_demand_power" (obis_id 1 0 1 24 0 255) (fixed_field Units.kw Units.w)
    ∷ define_field "active_demand_net" (obis_id 1 0 16 24 0 255) (fixed_field Units.kw Units.w)
    ∷ define_field "active_demand_abs" (obis_id 1 0 15 24 0 255) (fixed_field Units.kw Units.w)
    ∷ define_field "gas_device_type" (obis_id 0 ids.gas 24 1 0 255) (int_field 16 Units.unitless)
    ∷ define_field "gas_equipment_id" (obis_id 0 ids.gas 96 1 0 255)
        (hex_string_or_regular_string_field 0 96)
    ∷ define_field "gas_equipment_id_be" (obis_id 0 ids.gas 96 1 1 255)
        (hex_string_or_regular_string_field 0 96)
    ∷ define_field "gas_valve_position" (obis_id 0 ids.gas 24 4 0 255) (int_field 8 Units.unitless)
    ∷ define_field "gas_delivered" (obis_id 0 ids.gas 24 2 1 255)
        (timestamped_fixed_field Units.m3 Units.dm3)
    ∷ define_field "gas_delivered_gj" (obis_id 0 ids.gas 24 2 1 255)
        (timestamped_fixed_field Units.gj Units.mj)
    ∷ define_field "gas_delivered_be" (obis_id 0 ids.gas 24 2 3 255)
        (timestamped_fixed_field Units.m3 Units.dm3)
    ∷ define_field "gas_delivered_text" (obis_id 0 ids.gas 24 3 0 255) raw_field
    ∷ define_field "thermal_device_type" (obis_id 0 ids.thermal 24 1 0 255)
        (int_field 16 Units.unitless)
    ∷ define_field "thermal_equipment_id" (obis_id 0 ids.thermal 96 1 0 255)
        (hex_string_or_regular_string_field 0 96)
    ∷ define_field "thermal_valve_position" (obis_id 0 ids.thermal 24 4 0 255)
        (int_field 8 Units.unitless)
    ∷ define_field "thermal_delivered" (obis_id 0 ids.thermal 24 2 1 255)
        (timestamped_fixed_field Units.gj Units.mj)
    ∷ define_field "water_device_type" (obis_id 0 ids.water 24 1 0 255)
        (int_field 16 Units.unitless)
    ∷ define_field "water_equipment_id" (obis_id 0 ids.water 96 1 0 255)
        (hex_string_or_regular_string_field 0 96)
    ∷ define_field "water_valve_position" (obis_id 0 ids.water 24 4 0 255)
        (int_field 8 Units.unitless)
    ∷ define_field "water_delivered" (obis_id 0 ids.water 24 2 1 255)
        (timestamped_fixed_field Units.m3 Units.dm3)
    ∷ define_field "sub_device_type" (obis_id 0 ids.sub 24 1 0 255) (int_field 16 Units.unitless)
    ∷ define_field "sub_equipment_id" (obis_id 0 ids.sub 96 1 0 255)
        (hex_string_or_regular_string_field 0 96)
    ∷ define_field "sub_valve_position" (obis_id 0 ids.sub 24 4 0 255) (int_field 8 Units.unitless)
    ∷ define_field "sub_delivered" (obis_id 0 ids.sub 24 2 1 255)
        (timestamped_fixed_field Units.m3 Units.dm3)
    ∷ []
