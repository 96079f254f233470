-- ===== src/Table/Grid.antt =====
-- Field definitions of src/dsmr_parser/fields.h, lines 388–473. The fields for Israel, the power in total, failures, sags, swells and messages.
use arduino_dsmr.Base.{[], ◌∷◌}
use arduino_dsmr.ParseObis.{obis_id}
use arduino_dsmr.Fields.{fixed_field, int_field, raw_field, string_field}
use arduino_dsmr.ParsedData.{ParsedData}
use arduino_dsmr.Table.Declare.{define_field}
use arduino_dsmr.Table.Units

abbrev pub grid_fields : ParsedData
grid_fields =
    define_field "energy_delivered_tariff1_il" (obis_id 1 0 1 8 11 255)
      (fixed_field Units.kwh Units.wh)
    ∷ define_field "energy_delivered_tariff2_il" (obis_id 1 0 1 8 12 255)
        (fixed_field Units.kwh Units.wh)
    ∷ define_field "energy_delivered_tariff3_il" (obis_id 1 0 1 8 13 255)
        (fixed_field Units.kwh Units.wh)
    ∷ define_field "energy_returned_tariff1_il" (obis_id 1 0 2 8 11 255)
        (fixed_field Units.kwh Units.wh)
    ∷ define_field "energy_returned_tariff2_il" (obis_id 1 0 2 8 12 255)
        (fixed_field Units.kwh Units.wh)
    ∷ define_field "energy_returned_tariff3_il" (obis_id 1 0 2 8 13 255)
        (fixed_field Units.kwh Units.wh)
    ∷ define_field "electricity_tariff_il" (obis_id 0 0 96 14 1 255) (string_field 2 2)
    ∷ define_field "electricity_failure_log_il" (obis_id 1 0 99 1 0 255) raw_field
    ∷ define_field "electricity_tariff" (obis_id 0 0 96 14 0 255) (string_field 4 32)
    ∷ define_field "power_delivered" (obis_id 1 0 1 7 0 255) (fixed_field Units.kw Units.w)
    ∷ define_field "power_returned" (obis_id 1 0 2 7 0 255) (fixed_field Units.kw Units.w)
    ∷ define_field "reactive_power_delivered" (obis_id 1 0 3 7 0 255)
        (fixed_field Units.kvar Units.var)
    ∷ define_field "reactive_power_returned" (obis_id 1 0 4 7 0 255)
        (fixed_field Units.kvar Units.var)
    ∷ define_field "power_delivered_ch" (obis_id 1 1 1 7 0 255) (fixed_field Units.kw Units.w)
    ∷ define_field "power_returned_ch" (obis_id 1 1 2 7 0 255) (fixed_field Units.kw Units.w)
    ∷ define_field "electricity_threshold" (obis_id 0 0 17 0 0 255) (fixed_field Units.kw Units.w)
    ∷ define_field "electricity_switch_position" (obis_id 0 0 96 3 10 255) (string_field 1 32)
    ∷ define_field "electricity_failures" (obis_id 0 0 96 7 21 255) (int_field 32 Units.unitless)
    ∷ define_field "electricity_long_failures" (obis_id 0 0 96 7 9 255)
        (int_field 32 Units.unitless)
    ∷ define_field "electricity_failure_log" (obis_id 1 0 99 97 0 255) raw_field
    ∷ define_field "electricity_sags_l1" (obis_id 1 0 32 32 0 255) (int_field 32 Units.unitless)
    ∷ define_field "voltage_sag_time_l1" (obis_id 1 0 32 33 0 255) (int_field 32 Units.s)
    ∷ define_field "voltage_sag_l1" (obis_id 1 0 32 34 0 255) (int_field 32 Units.v)
    ∷ define_field "electricity_sags_l2" (obis_id 1 0 52 32 0 255) (int_field 32 Units.unitless)
    ∷ define_field "voltage_sag_time_l2" (obis_id 1 0 52 33 0 255) (int_field 32 Units.s)
    ∷ define_field "voltage_sag_l2" (obis_id 1 0 52 34 0 255) (int_field 32 Units.v)
    ∷ define_field "electricity_sags_l3" (obis_id 1 0 72 32 0 255) (int_field 32 Units.unitless)
    ∷ define_field "voltage_sag_time_l3" (obis_id 1 0 72 33 0 255) (int_field 32 Units.s)
    ∷ define_field "voltage_sag_l3" (obis_id 1 0 72 34 0 255) (int_field 32 Units.v)
    ∷ define_field "electricity_swells_l1" (obis_id 1 0 32 36 0 255) (int_field 32 Units.unitless)
    ∷ define_field "voltage_swell_time_l1" (obis_id 1 0 32 37 0 255) (int_field 32 Units.s)
    ∷ define_field "voltage_swell_l1" (obis_id 1 0 32 38 0 255) (int_field 32 Units.v)
    ∷ define_field "electricity_swells_l2" (obis_id 1 0 52 36 0 255) (int_field 32 Units.unitless)
    ∷ define_field "voltage_swell_time_l2" (obis_id 1 0 52 37 0 255) (int_field 32 Units.s)
    ∷ define_field "voltage_swell_l2" (obis_id 1 0 52 38 0 255) (int_field 32 Units.v)
    ∷ define_field "electricity_swells_l3" (obis_id 1 0 72 36 0 255) (int_field 32 Units.unitless)
    ∷ define_field "voltage_swell_time_l3" (obis_id 1 0 72 37 0 255) (int_field 32 Units.s)
    ∷ define_field "voltage_swell_l3" (obis_id 1 0 72 38 0 255) (int_field 32 Units.v)
    ∷ define_field "message_short" (obis_id 0 0 96 13 1 255) (string_field 0 16)
    ∷ define_field "message_long" (obis_id 0 0 96 13 0 255) (string_field 0 2048)
    ∷ []
