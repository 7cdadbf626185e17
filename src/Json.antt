-- ===== src/Json.antt =====
-- kind.py, _json.py and _geojson.py: values read out of JSON at the kinds that they were declared with.
pub mod Node
pub mod Kinds
pub mod Numbers
pub mod Durations
pub mod Geometry
pub mod Reading
pub mod Fits
pub mod Leaves
pub mod Sound
pub mod Fuel
pub mod Counts
pub mod Spelled
pub mod Samples
mod Tests
