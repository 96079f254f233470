-- ===== src/Table/Phases.antt =====
-- Field definitions of src/dsmr_parser/fields.h, lines 477–558. Voltages, currents and power by phase.
use arduino_dsmr.Base.{[], ◌∷◌}
use arduino_dsmr.ParseObis.{obis_id}
use arduino_dsmr.Fields.{fixed_field}
use arduino_dsmr.ParsedData.{ParsedData}
use arduino_dsmr.Table.Declare.{define_field}
use arduino_dsmr.Table.Units

abbrev pub phase_fields : ParsedData
phase_fields =
    define_field "voltage_l1" (obis_id 1 0 32 7 0 255) (fixed_field Units.v Units.mv)
    ∷ define_field "voltage_avg_l1" (obis_id 1 0 32 24 0 255) (fixed_field Units.v Units.mv)
    ∷ define_field "voltage_l2" (obis_id 1 0 52 7 0 255) (fixed_field Units.v Units.mv)
    ∷ define_field "voltage_avg_l2" (obis_id 1 0 52 24 0 255) (fixed_field Units.v Units.mv)
    ∷ define_field "voltage_l3" (obis_id 1 0 72 7 0 255) (fixed_field Units.v Units.mv)
    ∷ define_field "voltage_avg_l3" (obis_id 1 0 72 24 0 255) (fixed_field Units.v Units.mv)
    ∷ define_field "voltage" (obis_id 1 0 12 7 0 255) (fixed_field Units.v Units.mv)
    ∷ define_field "frequency" (obis_id 1 0 14 7 0 255) (fixed_field Units.hz Units.mhz)
    ∷ define_field "abs_power" (obis_id 1 0 15 7 0 255) (fixed_field Units.kw Units.w)
    ∷ define_field "current_l1" (obis_id 1 0 31 7 0 255) (fixed_field Units.a Units.ma)
    ∷ define_field "current_fuse_l1" (obis_id 1 0 31 4 0 255) (fixed_field Units.a Units.ma)
    ∷ define_field "current_l2" (obis_id 1 0 51 7 0 255) (fixed_field Units.a Units.ma)
    ∷ define_field "current_fuse_l2" (obis_id 1 0 51 4 0 255) (fixed_field Units.a Units.ma)
    ∷ define_field "current_l3" (obis_id 1 0 71 7 0 255) (fixed_field Units.a Units.ma)
    ∷ define_field "current_fuse_l3" (obis_id 1 0 71 4 0 255) (fixed_field Units.a Units.ma)
    ∷ define_field "power_delivered_l1" (obis_id 1 0 21 7 0 255) (fixed_field Units.kw Units.w)
    ∷ define_field "power_delivered_l2" (obis_id 1 0 41 7 0 255) (fixed_field Units.kw Units.w)
    ∷ define_field "power_delivered_l3" (obis_id 1 0 61 7 0 255) (fixed_field Units.kw Units.w)
    ∷ define_field "power_returned_l1" (obis_id 1 0 22 7 0 255) (fixed_field Units.kw Units.w)
    ∷ define_field "power_returned_l2" (obis_id 1 0 42 7 0 255) (fixed_field Units.kw Units.w)
    ∷ define_field "power_returned_l3" (obis_id 1 0 62 7 0 255) (fixed_field Units.kw Units.w)
    ∷ define_field "current" (obis_id 1 0 11 7 0 255) (fixed_field Units.a Units.ma)
    ∷ define_field "current_n" (obis_id 1 0 91 7 0 255) (fixed_field Units.a Units.ma)
    ∷ define_field "current_sum" (obis_id 1 0 90 7 0 255) (fixed_field Units.a Units.ma)
    ∷ define_field "reactive_power_delivered_l1" (obis_id 1 0 23 7 0 255)
        (fixed_field Units.kvar Units.var)
    ∷ define_field "reactive_power_delivered_l2" (obis_id 1 0 43 7 0 255)
        (fixed_field Units.kvar Units.var)
    ∷ define_field "reactive_power_delivered_l3" (obis_id 1 0 63 7 0 255)
        (fixed_field Units.kvar Units.var)
    ∷ define_field "reactive_power_returned_l1" (obis_id 1 0 24 7 0 255)
        (fixed_field Units.kvar Units.var)
    ∷ define_field "reactive_power_returned_l2" (obis_id 1 0 44 7 0 255)
        (fixed_field Units.kvar Units.var)
    ∷ define_field "reactive_power_returned_l3" (obis_id 1 0 64 7 0 255)
        (fixed_field Units.kvar Units.var)
    ∷ define_field "apparent_delivery_power" (obis_id 1 0 9 7 0 255)
        (fixed_field Units.kva Units.va)
    ∷ define_field "apparent_delivery_power_l1" (obis_id 1 0 29 7 0 255)
        (fixed_field Units.kva Units.va)
    ∷ define_field "apparent_delivery_power_l2" (obis_id 1 0 49 7 0 255)
        (fixed_field Units.kva Units.va)
    ∷ define_field "apparent_delivery_power_l3" (obis_id 1 0 69 7 0 255)
        (fixed_field Units.kva Units.va)
    ∷ define_field "apparent_return_power" (obis_id 1 0 10 7 0 255) (fixed_field Units.kva Units.va)
    ∷ define_field "apparent_return_power_l1" (obis_id 1 0 30 7 0 255)
        (fixed_field Units.kva Units.va)
    ∷ define_field "apparent_return_power_l2" (obis_id 1 0 50 7 0 255)
        (fixed_field Units.kva Units.va)
    ∷ define_field "apparent_return_power_l3" (obis_id 1 0 70 7 0 255)
        (fixed_field Units.kva Units.va)
    ∷ []
