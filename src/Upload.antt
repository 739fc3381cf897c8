-- ===== src/Upload.antt =====
-- Sending a file by HTTP requests, chunk by chunk, from the command line or the desktop window.
pub mod Headers
pub mod Dispatcher
pub mod Request
pub mod Receiver
pub mod Sender
pub mod Delivery
