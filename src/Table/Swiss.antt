-- ===== src/Table/Swiss.antt =====
-- Field definitions of src/dsmr_parser/fields.h, lines 334–384. The fields for Switzerland.
use arduino_dsmr.Base.{[], ◌∷◌}
use arduino_dsmr.ParseObis.{obis_id}
use arduino_dsmr.Fields.{fixed_field, timestamped_fixed_field}
use arduino_dsmr.ParsedData.{ParsedData}
use arduino_dsmr.Table.Declare.{define_field}
use arduino_dsmr.Table.Units

abbrev pub swiss_fields : ParsedData
swiss_fields =
    define_field "energy_delivered_ch" (obis_id 1 1 1 8 0 255) (fixed_field Units.kwh Units.wh)
    ∷ define_field "energy_delivered_tariff1_ch" (obis_id 1 1 1 8 1 255)
        (fixed_field Units.kwh Units.wh)
    ∷ define_field "energy_delivered_tariff2_ch" (obis_id 1 1 1 8 2 255)
        (fixed_field Units.kwh Units.wh)
    ∷ define_field "energy_returned_ch" (obis_id 1 1 2 8 0 255) (fixed_field Units.kwh Units.wh)
    ∷ define_field "energy_returned_tariff1_ch" (obis_id 1 1 2 8 1 255)
        (fixed_field Units.kwh Units.wh)
    ∷ define_field "energy_returned_tariff2_ch" (obis_id 1 1 2 8 2 255)
        (fixed_field Units.kwh Units.wh)
    ∷ define_field "total_imported_energy_ch" (obis_id 1 1 3 8 0 255)
        (fixed_field Units.kvarh Units.varh)
    ∷ define_field "total_exported_energy_ch" (obis_id 1 1 4 8 0 255)
        (fixed_field Units.kvarh Units.varh)
    ∷ define_field "reactive_energy_q1_ch" (obis_id 1 1 5 8 0 255)
        (fixed_field Units.kvarh Units.varh)
    ∷ define_field "reactive_energy_q1_tariff1_ch" (obis_id 1 1 5 8 1 255)
        (fixed_field Units.kvarh Units.varh)
    ∷ define_field "reactive_energy_q1_tariff2_ch" (obis_id 1 1 5 8 2 255)
        (fixed_field Units.kvarh Units.varh)
    ∷ define_field "reactive_energy_q2_ch" (obis_id 1 1 6 8 0 255)
        (fixed_field Units.kvarh Units.varh)
    ∷ define_field "reactive_energy_q2_tariff1_ch" (obis_id 1 1 6 8 1 255)
        (fixed_field Units.kvarh Units.varh)
    ∷ define_field "reactive_energy_q2_tariff2_ch" (obis_id 1 1 6 8 2 255)
        (fixed_field Units.kvarh Units.varh)
    ∷ define_field "reactive_energy_q3_ch" (obis_id 1 1 7 8 0 255)
        (fixed_field Units.kvarh Units.varh)
    ∷ define_field "reactive_energy_q3_tariff1_ch" (obis_id 1 1 7 8 1 255)
        (fixed_field Units.kvarh Units.varh)
    ∷ define_field "reactive_energy_q3_tariff2_ch" (obis_id 1 1 7 8 2 255)
        (fixed_field Units.kvarh Units.varh)
    ∷ define_field "reactive_energy_q4_ch" (obis_id 1 1 8 8 0 255)
        (fixed_field Units.kvarh Units.varh)
    ∷ define_field "reactive_energy_q4_tariff1_ch" (obis_id 1 1 8 8 1 255)
        (fixed_field Units.kvarh Units.varh)
    ∷ define_field "reactive_energy_q4_tariff2_ch" (obis_id 1 1 8 8 2 255)
        (fixed_field Units.kvarh Units.varh)
    ∷ define_field "power_delivered_l1_ch" (obis_id 1 1 21 7 0 255) (fixed_field Units.kw Units.w)
    ∷ define_field "power_delivered_l2_ch" (obis_id 1 1 41 7 0 255) (fixed_field Units.kw Units.w)
    ∷ define_field "power_delivered_l3_ch" (obis_id 1 1 61 7 0 255) (fixed_field Units.kw Units.w)
    ∷ define_field "power_returned_l1_ch" (obis_id 1 1 22 7 0 255) (fixed_field Units.kw Units.w)
    ∷ define_field "power_returned_l2_ch" (obis_id 1 1 42 7 0 255) (fixed_field Units.kw Units.w)
    ∷ define_field "power_returned_l3_ch" (obis_id 1 1 62 7 0 255) (fixed_field Units.kw Units.w)
    ∷ define_field "reactive_power_delivered_l1_ch" (obis_id 1 1 23 7 0 255)
        (fixed_field Units.kvar Units.var)
    ∷ define_field "reactive_power_delivered_l2_ch" (obis_id 1 1 43 7 0 255)
        (fixed_field Units.kvar Units.var)
    ∷ define_field "reactive_power_delivered_l3_ch" (obis_id 1 1 63 7 0 255)
        (fixed_field Units.kvar Units.var)
    ∷ define_field "reactive_power_returned_l1_ch" (obis_id 1 1 24 7 0 255)
        (fixed_field Units.kvar Units.var)
    ∷ define_field "reactive_power_returned_l2_ch" (obis_id 1 1 44 7 0 255)
        (fixed_field Units.kvar Units.var)
    ∷ define_field "reactive_power_returned_l3_ch" (obis_id 1 1 64 7 0 255)
        (fixed_field Units.kvar Units.var)
    ∷ define_field "maximum_power_delivered_ch" (obis_id 1 1 1 6 0 255)
        (timestamped_fixed_field Units.kw Units.w)
    ∷ define_field "maximum_power_returned_ch" (obis_id 1 1 2 6 0 255)
        (timestamped_fixed_field Units.kw Units.w)
    ∷ []
