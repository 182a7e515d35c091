-- ===== src/Lib.antt =====
-- ThingSpace embedded SDK: the code between a device's application and its modem.
--
-- An application hands a message to the cloud communication layer, which passes it to a protocol.
-- Over SMS this is smsnas_protocol.c: it puts a header before the payload, cuts the message into
-- segments and gives each to the modem driver, which writes it as a PDU by smscodec.c. A received
-- PDU goes the other way; the bytes of the modem come in through the UART buffer of uart_util.c.
--
--   Prelude   arrays, tests and the outcomes of C calls
--   Sms       sdk/cloud_comm/src/network/at/smscodec: `hexstr` and `hexnum` (Sms/Hex),
--             `encode_addr`, `encode_ud`, `smscodec_encode` (Sms/Encode), `decode_addr`,
--             `decode_ud`, `smscodec_decode` (Sms/Decode)
--   Uart      sdk/cloud_comm/src/network/at/core/uart_util.c: the interrupt, the idle timer and
--             reading (Uart/Rx), `find_substr_in_ring_buffer` and `uart_util_line_avail`
--             (Uart/Search)
--   AtCore    sdk/cloud_comm/src/network/at/core/at_core.c: waiting and lines (AtCore), commands and
--             their responses (AtCore/Command), start and reset (AtCore/Start); proofs on the end of
--             waiting (AtCore/Waiting) and of the lines that come unasked (AtCore/Lines)
--   SmsNas    sdk/cloud_comm/src/protocols/smsnas_protocol: the session (SmsNas/Session), the
--             sending half (SmsNas/Send) and the receiving half (SmsNas/Receive)
--   Ott       sdk/cloud_comm/src/protocols/ott_protocol: messages and their reading from TLS
--             (Ott/Message), the session (Ott/Session, Ott/Setup), what a received message does
--             and the waiting for one (Ott/Response), connecting and the messages that are sent
--             (Ott/Connect), establishing a session, sending in it and keeping it up
--             (Ott/Exchange); proofs on the bytes that are written (Ott/Write, Connect/Layout), on
--             reading (Ott/Fragments), on the clock (Ott/Ending, Ending/Wait, Connect/Late), and on
--             a message with its answer (Exchange/Answer, Deliver)
--   Cloud     sdk/cloud_comm/src/cloud_comm_api/cloud_comm.c: the state and the interface of a
--             protocol (Cloud/Types), the services and the dispatch (Cloud/Dispatch), the receive
--             buffer and the callbacks (Cloud/Receive), sending and the periodic call (Cloud/Send);
--             proofs on what any callbacks leave (Cloud/Ready, Safe, Callbacks), on polling
--             (Cloud/Schedule), sending, delivery and set-up
--   Service   sdk/cloud_comm/src/services: cc_control_service.c (Service/Control) and
--             cc_basic_service.c (Service/Basic)
--   Rbuf      sdk/cloud_comm/src/network/at/sqmonarch/tcp/rbuf.c: the ring buffers of the Monarch
--             modem
--
-- A C function is a function on a record of the file's static variables. A call ends as an
-- `Outcome`: with a value, with its failure value, with an access outside the memory that it was
-- given (`fault`), or not at all (`hang`). Arithmetic of `uint8_t`, `uint16_t` and `uint32_t` has its
-- wrap-around written out. A pointer into a buffer is the memory from it on, NULL is `none`.
--
-- Loops have fuel where they do not go along a list: 129 rounds for a loop over a `uint8_t` in steps
-- of two, 491 for the number of segments of a `uint16_t` size, 256 for a loop over segment numbers,
-- `find_fuel` for the search in the buffer, a round for each byte that is written or read through
-- TLS, as many as there can be calls of mbedtls until a timeout or looks at a flag until a time
-- limit, and one more than there are bytes unread for the lines of the modem. Each theorem that
-- states a result shows that its fuel is enough.
--
-- Parameters: the modem (`at_sms_send`), what the registered callback does with the session, the
-- clock, mbedtls and its connection, what the interrupts do between two looks at a flag; for the
-- cloud layer, a protocol as a record of operations, whose calls are trees of callbacks, and what
-- the application acknowledges in its callbacks. Not modelled: printing,
-- the hardware timer and UART, the modem drivers and their tables of commands, the emulated flow
-- control of the UART, the MQTT protocol, the platform code and the applications, and the libraries that
-- the repository takes along.
pub mod Prelude
pub mod Sms
pub mod Uart
pub mod AtCore
pub mod SmsNas
pub mod Ott
pub mod Cloud
pub mod Service
pub mod Rbuf
