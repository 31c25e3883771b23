-- ===== src/Nvme.antt =====
-- hil/nvme/queue.cc: the submission and completion queues of the NVMe controller.
-- The memory of a queue belongs to the host: what is read and written there is an address in the
-- result. All fields are 16 bits wide, but for the stride.
pub mod Queue
mod Tests
