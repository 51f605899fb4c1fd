-- ===== src/Ipc/ShmError.antt =====
-- crates/scg-ipc/src/shm.rs: the errors of the shared-memory rings.

pub data ShmError : Type 0 where
  too_small bad_magic bad_version bad_geometry frame_too_large ring_corrupt : ShmError
