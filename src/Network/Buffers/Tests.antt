-- ===== src/Network/Buffers/Tests.antt =====
-- The buffer manager as it is constructed, and a ring after a write.
use kernelc_moderne.Prelude.{◌≡◌, [], ◌∷◌}
use kernelc_moderne.Network.Buffers.{new_manager, write_to_tx_buffer, read_from_rx_buffer}
use kernelc_moderne.Network.Buffers.Refine.{
  tx_queue, rx_queue, new_manager-IsManager, write_to_tx_buffer-queue, read_from_rx_buffer-queue,
}

write_to_tx_buffer-queue_example :
    rx_queue (write_to_tx_buffer new_manager (1 ∷ 2 ∷ [])).0 ≡ rx_queue new_manager
write_to_tx_buffer-queue_example =
    (write_to_tx_buffer-queue new_manager (1 ∷ 2 ∷ []) new_manager-IsManager).1

read_from_rx_buffer-queue_example :
    tx_queue (read_from_rx_buffer new_manager 3).0 ≡ tx_queue new_manager
read_from_rx_buffer-queue_example =
    (read_from_rx_buffer-queue new_manager 3 new_manager-IsManager).1
