-- ===== src/Table/Demand.antt =====
-- Field definitions of src/dsmr_parser/fields.h, lines 627–662. Demand, firmware and power factors.
use arduino_dsmr.Base.{[], ◌∷◌}
use arduino_dsmr.ParseObis.{obis_id}
use arduino_dsmr.Fields.{
  averaged_fixed_field, fixed_field, int_field, string_field, timestamped_fixed_field,
}
use arduino_dsmr.ParsedData.{ParsedData}
use arduino_dsmr.Table.Declare.{define_field}
use arduino_dsmr.Table.Units

abbrev pub demand_fields : ParsedData
demand_fields =
    define_field "active_energy_import_current_average_demand" (obis_id 1 0 1 4 0 255)
      (fixed_field Units.kw Units.w)
    ∷ define_field "active_energy_export_current_average_demand" (obis_id 1 0 2 4 0 255)
        (fixed_field Units.kw Units.w)
    ∷ define_field "reactive_energy_import_current_average_demand" (obis_id 1 0 3 4 0 255)
        (fixed_field Units.kvar Units.kvar)
    ∷ define_field "reactive_energy_export_current_average_demand" (obis_id 1 0 4 4 0 255)
        (fixed_field Units.kvar Units.kvar)
    ∷ define_field "apparent_energy_import_current_average_demand" (obis_id 1 0 9 4 0 255)
        (fixed_field Units.kva Units.va)
    ∷ define_field "apparent_energy_export_current_average_demand" (obis_id 1 0 10 4 0 255)
        (fixed_field Units.kva Units.va)
    ∷ define_field "active_energy_import_last_completed_demand" (obis_id 1 0 1 5 0 255)
        (fixed_field Units.kw Units.w)
    ∷ define_field "active_energy_export_last_completed_demand" (obis_id 1 0 2 5 0 255)
        (fixed_field Units.kw Units.w)
    ∷ define_field "reactive_energy_import_last_completed_demand" (obis_id 1 0 3 5 0 255)
        (fixed_field Units.kvar Units.kvar)
    ∷ define_field "reactive_energy_export_last_completed_demand" (obis_id 1 0 4 5 0 255)
        (fixed_field Units.kvar Units.kvar)
    ∷ define_field "apparent_energy_import_last_completed_demand" (obis_id 1 0 9 5 0 255)
        (fixed_field Units.kva Units.va)
    ∷ define_field "apparent_energy_export_last_completed_demand" (obis_id 1 0 10 5 0 255)
        (fixed_field Units.kva Units.va)
    ∷ define_field "active_energy_import_maximum_demand_running_month" (obis_id 1 0 1 6 0 255)
        (timestamped_fixed_field Units.kw Units.w)
    ∷ define_field "active_energy_import_maximum_demand_last_13_months" (obis_id 0 0 98 1 0 255)
        (averaged_fixed_field Units.kw Units.w)
    ∷ define_field "fw_core_version" (obis_id 1 0 0 2 0 255) (string_field 0 96)
    ∷ define_field "fw_core_checksum" (obis_id 1 0 0 2 8 255) (string_field 0 96)
    ∷ define_field "fw_module_version" (obis_id 1 1 0 2 0 255) (string_field 0 96)
    ∷ define_field "fw_module_checksum" (obis_id 1 1 0 2 8 255) (string_field 0 96)
    ∷ define_field "power_factor" (obis_id 1 0 13 7 0 255)
        (fixed_field Units.unitless Units.unitless)
    ∷ define_field "power_factor_l1" (obis_id 1 0 33 7 0 255)
        (fixed_field Units.unitless Units.unitless)
    ∷ define_field "power_factor_l2" (obis_id 1 0 53 7 0 255)
        (fixed_field Units.unitless Units.unitless)
    ∷ define_field "power_factor_l3" (obis_id 1 0 73 7 0 255)
        (fixed_field Units.unitless Units.unitless)
    ∷ define_field "min_power_factor" (obis_id 1 0 13 3 0 255)
        (fixed_field Units.unitless Units.unitless)
    ∷ define_field "period_3_for_instantaneous_values" (obis_id 1 0 0 8 2 255)
        (int_field 32 Units.s)
    ∷ []
