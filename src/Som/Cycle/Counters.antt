-- ===== src/Som/Cycle/Counters.antt =====
-- The counters of a cycle: each read and each write is counted once.
use rc_plane.Base.{ℕ, ◌+◌, ◌*◌, ◌%◌, ◌^◌, ◌≡◌, Bool, true, false, some, arith}
use rc_plane.Double.{Double}
use rc_plane.Common.Packet.Bytes.{rc_rx_layout, control_surface_layout, imu_layout}
use rc_plane.Io.Serial.{SerialPort}
use rc_plane.Io.Telemetry.Message.{DebugMessage}
use rc_plane.Io.Telemetry.Queue.{Queues}
use rc_plane.Som.Controller.{SomController}
use rc_plane.Som.Cycle.After.{run_cycle-after_cycle}
use rc_plane.Som.Cycle.{count_read, count_written, count_loop, after_cycle, run_cycle}

-- Between two messages, n cycles are counted, with two reads and a write each, modulo 2^32.
pub record IsCounted (n : ℕ) (m m' : DebugMessage) : Type 0 where
  pub loops : m'.main_loop_counter % 2 ^ 32 ≡ (m.main_loop_counter + n) % 2 ^ 32
  pub reads :
      (m'.serial_reads + m'.serial_read_timeouts) % 2 ^ 32
      ≡ (m.serial_reads + m.serial_read_timeouts + 2 * n) % 2 ^ 32
  pub writes :
      (m'.serial_writes + m'.serial_write_timeouts) % 2 ^ 32
      ≡ (m.serial_writes + m.serial_write_timeouts + n) % 2 ^ 32

count-IsCounted :
    (written imu rc_rx : Bool) (m : DebugMessage)
    → IsCounted 1 m (count_loop (count_written written (count_read imu (count_read rc_rx m))))
unfolding count_loop count_written count_read
count-IsCounted true true true m = record {
  loops = omega arith;
  reads = omega arith;
  writes = omega arith;
}
count-IsCounted true true false m = record {
  loops = omega arith;
  reads = omega arith;
  writes = omega arith;
}
count-IsCounted true false true m = record {
  loops = omega arith;
  reads = omega arith;
  writes = omega arith;
}
count-IsCounted true false false m = record {
  loops = omega arith;
  reads = omega arith;
  writes = omega arith;
}
count-IsCounted false imu rc_rx m = record {
  loops = ground arith;
  reads = ground arith;
  writes = ground arith;
}

module _ {W Q F : Type 0} ⦃port : SerialPort W⦄ ⦃d : Double F⦄ (qs : Queues W Q F) where
  -- Of a cycle that returns, the counters are those of one cycle.
  pub run_cycle-IsCounted :
      (c c' : SomController Q F) (w w' : W)
      → run_cycle qs c w ≡ some (c', w')
      → IsCounted 1 c.debug_message c'.debug_message
  unfolding after_cycle
  run_cycle-IsCounted c c' w w' h =
      let (rc_rx, imu, _, _, _, _, written, same) = run_cycle-after_cycle qs c c' w w' h in
      rw same (count-IsCounted written imu.did_timeout rc_rx.did_timeout c.debug_message)
