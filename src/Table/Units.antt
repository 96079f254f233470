-- ===== src/Table/Units.antt =====
-- `units` of src/dsmr_parser/fields.h; `none` is `unitless` here.
use arduino_dsmr.Base.{[], Bytes, codes}

abbrev pub unitless : Bytes
unitless = []

abbrev pub kwh : Bytes
kwh = codes "kWh"

abbrev pub wh : Bytes
wh = codes "Wh"

abbrev pub kw : Bytes
kw = codes "kW"

abbrev pub w : Bytes
w = codes "W"

abbrev pub kv : Bytes
kv = codes "kV"

abbrev pub v : Bytes
v = codes "V"

abbrev pub mv : Bytes
mv = codes "mV"

abbrev pub ka : Bytes
ka = codes "kA"

abbrev pub a : Bytes
a = codes "A"

abbrev pub ma : Bytes
ma = codes "mA"

abbrev pub m3 : Bytes
m3 = codes "m3"

abbrev pub dm3 : Bytes
dm3 = codes "dm3"

abbrev pub gj : Bytes
gj = codes "GJ"

abbrev pub mj : Bytes
mj = codes "MJ"

abbrev pub kvar : Bytes
kvar = codes "kvar"

abbrev pub var : Bytes
var = codes "var"

abbrev pub kvarh : Bytes
kvarh = codes "kvarh"

abbrev pub varh : Bytes
varh = codes "varh"

abbrev pub kva : Bytes
kva = codes "kVA"

abbrev pub va : Bytes
va = codes "VA"

abbrev pub s : Bytes
s = codes "s"

abbrev pub hz : Bytes
hz = codes "Hz"

abbrev pub mhz : Bytes
mhz = codes "mHz"
