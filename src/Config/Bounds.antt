-- ===== src/Config/Bounds.antt =====
-- Which limits native/src/config.rs lets through.
use micro_sandbox.Prelude.{◌≤◌, ◌≡◌, ◌↔◌, arith}
use micro_sandbox.Config.{ResourceLimits, valid, max_raw_io_bytes, validate_transport_bounds}

-- The transport bounds hold exactly when both byte limits lie between 1 and 512 KiB.
pub validate_transport_bounds-exact :
    (l : ResourceLimits)
    → (validate_transport_bounds l ≡ valid tt) ↔ (
        (1 ≤ l.input_bytes)
        × (l.input_bytes ≤ max_raw_io_bytes)
        × (1 ≤ l.output_bytes)
        × (l.output_bytes ≤ max_raw_io_bytes))
unfolding validate_transport_bounds
validate_transport_bounds-exact l = ground arith
