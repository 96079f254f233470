-- ===== src/Table.antt =====
-- The fields that src/dsmr_parser/fields.h defines, in its order; a user of the library picks
-- some of them for a `ParsedData`.
pub mod Units
pub mod Ids
pub mod Declare
pub mod Energy
pub mod Swiss
pub mod Grid
pub mod Phases
pub mod Devices
pub mod Demand
use arduino_dsmr.Base.{◌++◌}
use arduino_dsmr.ParsedData.{ParsedData}
use arduino_dsmr.Table.Declare.{MbusIds}
use arduino_dsmr.Table.Energy.{energy_fields}
use arduino_dsmr.Table.Swiss.{swiss_fields}
use arduino_dsmr.Table.Grid.{grid_fields}
use arduino_dsmr.Table.Phases.{phase_fields}
use arduino_dsmr.Table.Devices.{device_fields}
use arduino_dsmr.Table.Demand.{demand_fields}

abbrev pub all_fields : MbusIds → ParsedData
all_fields ids =
    energy_fields
    ++ swiss_fields
    ++ grid_fields
    ++ phase_fields
    ++ device_fields ids
    ++ demand_fields
