-- ===== src/AtSerial.antt =====
-- include/robstride_driver/at_serial_can_interface.hpp and src/at_serial_can_interface.cpp: the AT
-- framing of the USB-CAN module, its parser, and the transport over a serial device.
pub mod Framing
pub mod Parser
pub mod Transport
pub mod Opening
pub mod Delivery
pub mod Interface
