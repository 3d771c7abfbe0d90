-- ===== src/Sbus.antt =====
-- platform/lpio/src/SBUSReader.cpp: the receiver of SBUS remote-control frames.
pub mod Frame
pub mod Receive
pub mod Decoding
