-- ===== src/Uart.antt =====
-- sdk/cloud_comm/src/network/at/core/uart_util.c: the receive buffer between the UART interrupt
-- and the AT layer, its idle timer, and the search for patterns and lines in it.
pub mod Rx
pub mod Search
mod Tests
