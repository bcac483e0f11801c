-- ===== src/Protocol.antt =====
-- include/robstride_driver/protocol.hpp, actuator_types.hpp and src/protocol.cpp.
pub mod Types
pub mod Params
pub mod Limits
pub mod Scaling
pub mod Ids
pub mod Encode
pub mod Decode
pub mod RoundTrip
pub mod Valid
