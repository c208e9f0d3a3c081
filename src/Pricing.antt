-- ===== src/Pricing.antt =====
-- apps/pricing: the archive of market orders. `Order` has the records, `Codec` their bytes, `Reader`
-- the decoder of json_reader.cpp, `Writer` the encoder of json_writer.cpp.
pub mod Order
pub mod Codec
pub mod Reader
pub mod Writer
pub mod Json
pub mod Paths
pub mod Pages
pub mod Analysis
mod Tests
