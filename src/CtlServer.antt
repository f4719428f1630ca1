-- ===== src/CtlServer.antt =====
-- src/ctl-server.c: the control socket's clients, their buffers and the commands that they send.
-- The socket calls' outcomes, the JSON library and the actions of src/main.c are arguments.
pub mod Commands
pub mod Client
pub mod Input
pub mod Receive
pub mod Delivery
pub mod Drop
pub mod Requests
pub mod Loop
pub mod Events
pub mod Unknown
mod Tests
