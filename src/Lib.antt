-- ===== src/Lib.antt =====
-- Verification of robstride_driver, a C++ library that drives RobStride motors over CAN.
--
-- The program has a codec for the motors' frames, transports that carry frames, a driver that
-- exchanges a command for its response over a transport, a simulated bus that takes a transport's
-- place, a helper that undoes the wrapping of reported positions, and example programs on top.
--
-- * Protocol models include/robstride_driver/protocol.hpp, actuator_types.hpp and src/protocol.cpp.
--   Types has the data, Params the parameter indices, Limits the table of ranges, Scaling
--   float_to_uint and uint_to_float, Ids make_id and the getters, Encode the make_* functions, and
--   Decode the parse_* functions; Ids/Layout, RoundTrip and Valid have the theorems. An overload
--   is named for the type it takes (make_write_param_frame_float), and the field `data` is `payload`
--   in a frame and `value` in a request or response.
-- * AtSerial models src/at_serial_can_interface.cpp. Framing has encode_frame and what poll makes
--   of a packet, Parser the state and operations of FrameParser, and Transport send and receive of
--   AtSerialCanInterface, over scripts of what the system calls and the clock answer, with the
--   timeouts that `receive` gives to select, though a script does not depend on them; Opening has
--   its constructor, Delivery joins it to the codec, and Interface makes it the transport of a
--   driver.
-- * SocketCan models src/socket_can_interface.cpp: the frames that send and receive exchange with
--   the kernel, the filter, and the constructor, with the answers of the system calls as arguments.
--   Interface makes it the transport of a driver, over the state of the kernel.
-- * Stub models src/stub_can_interface.cpp: the state of StubCanInterface is the record Stub, and
--   its operations take it and return it, with the clock's reading as an argument of send. Replies
--   and Answers are about what it answers, Sound and Uses about any sequence of the operations.
-- * Motor models include/robstride_driver/can_interface.hpp and src/robstride_motor.cpp.
--   CanInterface is a record of operations on a state outside the driver, which the driver takes as
--   an instance argument. Monad has the state of RobstrideMotor and calls that change it and may
--   throw, Exchange transceive and what is built on it, and Commands the public operations.
--   Simulated fills CanInterface by the simulated bus and joins the two parts. Alike compares the
--   operations over two transports, and Own is about what they keep of the driver's own state.
-- * Servo is the abstract specification of a motor behind the driver: its state, and what a command
--   makes of it and answers, with no frames, ids, exchanges or clock. Abstracts relates it to the
--   state in the simulated bus; Runs, Calls, Sequences and Refines relate it to the calls of the
--   driver. Fleet has several drivers that share one bus, and Transports the calls over two
--   transports that answer alike, such as a bus and a socket on it; Keeping is about sequences of
--   calls over any transport.
-- * Unwrapper models include/robstride_driver/position_unwrapper.hpp.
-- * Examples models examples/tracking_capture_*.cpp, tracking_capture_common.hpp and
--   velocity_control.cpp. Process has the state of such a program, with `while` on fuel, Setup the
--   arguments, the transport and the motor, Profile the recording, Captures and Velocity what the
--   programs do with the driver, and Mains their `main`. Attains has the theorems over the simulated
--   bus, Records those over any transport, with the same programs that keep a log and no file. A row
--   of the CSV file is the list of its numbers, and a text the list of its bytes.
-- * Double is what the code does with double and float, as a record of operations that the
--   definitions take as an instance argument, and a float is its 32-bit pattern. Double/Micro is an
--   instance with exact sums, on which the definitions run in the tests. Order states what IEEE 754
--   and the C++ library document of the order, which Protocol/Scaling/Order takes as an argument.
-- * Common has the shared lists, tests, bits, integers, maps and results, and Tests the test data.
--
-- Numbers of the C++ integer types are natural numbers, with masks, shifts and casts written out. A
-- map is an association list. Times are nanoseconds of the steady clock, timeouts milliseconds. The
-- loop of poll is a recursion on the buffer, since each round that goes on drops a byte. On the
-- serial line, the loop of send recurses on the answers of write and that of receive on the
-- readings of the clock; where a script ends, a call that needs more of it is left waiting. The
-- loop of transceive has fuel: one round is enough over the simulated bus, and a round for each
-- nanosecond of the timeout, and one more, over any transport of which each reading of the clock is
-- later than the one before and the calls come to an end. The loops of the examples have fuel too:
-- more rounds than the readings of the clock that a segment lasts are enough. Opening a transport,
-- sleeping and std::stod are arguments there.
--
-- Not modelled are the texts of exceptions and of the console. encode_frame is modelled for at most
-- 8 bytes of data; above that the source reads past the end of its array.
pub mod Common
pub mod Double
pub mod Protocol
pub mod AtSerial
pub mod SocketCan
pub mod Stub
pub mod Motor
pub mod Servo
pub mod Unwrapper
pub mod Examples
mod Tests
