-- ===== src/Types.antt =====
-- pkg/types/initiator_msg.go: the messages of initiators.
pub mod Messages
pub mod Participants
pub mod Signed
