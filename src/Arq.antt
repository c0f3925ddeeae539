-- ===== src/Arq.antt =====
-- src/mac/SmartController.{hh,cc}: the automatic repeat request protocol of the MAC controller.
pub mod Recv
pub mod Send
pub mod Transmit
pub mod Feedback
pub mod Selective
pub mod Amc
pub mod Timers
pub mod Hello
pub mod Windows
pub mod Controller
pub mod Pull
pub mod Sample
