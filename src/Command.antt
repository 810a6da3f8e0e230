-- ===== src/Command.antt =====
-- EtherRecorder/src/command_interface.c: the framed commands that a client sends over a socket, and
-- their acknowledgements. Lines of the log are left out, and the command itself is only logged
-- there.
pub mod Wire
pub mod Context
pub mod Connection
pub mod Frames
pub mod Sessions
pub mod Delivery
