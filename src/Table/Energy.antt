-- ===== src/Table/Energy.antt =====
-- Field definitions of src/dsmr_parser/fields.h, lines 276–330. The meter, and the energy readings by tariff.
use arduino_dsmr.Base.{[], ◌∷◌}
use arduino_dsmr.ParseObis.{obis_id}
use arduino_dsmr.Fields.{
  fixed_field, hex_string_or_regular_string_field, raw_field, string_field, timestamp_field,
}
use arduino_dsmr.ParsedData.{ParsedData}
use arduino_dsmr.Table.Declare.{define_field}
use arduino_dsmr.Table.Units

abbrev pub energy_fields : ParsedData
energy_fields =
    define_field "identification" (obis_id 255 255 255 255 255 255) raw_field
    ∷ define_field "p1_version" (obis_id 1 3 0 2 8 255) (string_field 2 2)
    ∷ define_field "p1_version_be" (obis_id 0 0 96 1 4 255) (string_field 2 96)
    ∷ define_field "timestamp" (obis_id 0 0 1 0 0 255) timestamp_field
    ∷ define_field "equipment_id" (obis_id 0 0 96 1 1 255) (hex_string_or_regular_string_field 0 96)
    ∷ define_field "energy_delivered_lux" (obis_id 1 0 1 8 0 255) (fixed_field Units.kwh Units.wh)
    ∷ define_field "energy_delivered_tariff1" (obis_id 1 0 1 8 1 255)
        (fixed_field Units.kwh Units.wh)
    ∷ define_field "energy_delivered_tariff2" (obis_id 1 0 1 8 2 255)
        (fixed_field Units.kwh Units.wh)
    ∷ define_field "energy_delivered_tariff3" (obis_id 1 0 1 8 3 255)
        (fixed_field Units.kwh Units.wh)
    ∷ define_field "energy_delivered_tariff4" (obis_id 1 0 1 8 4 255)
        (fixed_field Units.kwh Units.wh)
    ∷ define_field "energy_returned_lux" (obis_id 1 0 2 8 0 255) (fixed_field Units.kwh Units.wh)
    ∷ define_field "energy_returned_tariff1" (obis_id 1 0 2 8 1 255)
        (fixed_field Units.kwh Units.wh)
    ∷ define_field "energy_returned_tariff2" (obis_id 1 0 2 8 2 255)
        (fixed_field Units.kwh Units.wh)
    ∷ define_field "energy_returned_tariff3" (obis_id 1 0 2 8 3 255)
        (fixed_field Units.kwh Units.wh)
    ∷ define_field "energy_returned_tariff4" (obis_id 1 0 2 8 4 255)
        (fixed_field Units.kwh Units.wh)
    ∷ define_field "total_imported_energy" (obis_id 1 0 3 8 0 255)
        (fixed_field Units.kvarh Units.varh)
    ∷ define_field "reactive_energy_delivered_tariff1" (obis_id 1 0 3 8 1 255)
        (fixed_field Units.kvarh Units.varh)
    ∷ define_field "reactive_energy_delivered_tariff2" (obis_id 1 0 3 8 2 255)
        (fixed_field Units.kvarh Units.varh)
    ∷ define_field "reactive_energy_delivered_tariff3" (obis_id 1 0 3 8 3 255)
        (fixed_field Units.kvarh Units.varh)
    ∷ define_field "reactive_energy_delivered_tariff4" (obis_id 1 0 3 8 4 255)
        (fixed_field Units.kvarh Units.varh)
    ∷ define_field "total_exported_energy" (obis_id 1 0 4 8 0 255)
        (fixed_field Units.kvarh Units.varh)
    ∷ define_field "reactive_energy_returned_tariff1" (obis_id 1 0 4 8 1 255)
        (fixed_field Units.kvarh Units.varh)
    ∷ define_field "reactive_energy_returned_tariff2" (obis_id 1 0 4 8 2 255)
        (fixed_field Units.kvarh Units.varh)
    ∷ define_field "reactive_energy_returned_tariff3" (obis_id 1 0 4 8 3 255)
        (fixed_field Units.kvarh Units.varh)
    ∷ define_field "reactive_energy_returned_tariff4" (obis_id 1 0 4 8 4 255)
        (fixed_field Units.kvarh Units.varh)
    ∷ []
