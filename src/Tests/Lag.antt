-- ===== src/Tests/Lag.antt =====
-- A line that is not clear: packets that wait on it, and a stray byte.
use rc_plane.Base.{
  ℕ, ◌≡◌, refl, Bool, false, some, List, [], ◌∷◌, ◌++◌, String, length, All, arith, replicate,
}
use mathlib.Core.List.{map}
use rc_plane.Base.Int.{pos}
use rc_plane.Double.{cast_uint8}
use rc_plane.Double.Fixed.{Fixed, fixed_double}
use rc_plane.Common.Packet.{ControlSurfacePacket, control_surface_packet, imu_packet}
use rc_plane.Common.Packet.RoundTrip.{IsRcRxValue}
use rc_plane.Autopilot.Manager.Flight.{fly}
use rc_plane.Mcu.{Sketch, sketch, loops}
use rc_plane.Som.Controller.{Host, SomController}
use rc_plane.Som.Loop.{run_rounds}
use rc_plane.Link.{link_port, Link, link_board, link_queues, exchanges}
use rc_plane.Link.Lag.{Sent, sent_packets, got_packet, up_bytes, down_bytes, IsBehind}
use rc_plane.Link.Lag.Exchanges.{IsDelayed, exchanges-IsDelayed}
use rc_plane.Link.Lag.Outage.{loops-exchanges, run_rounds-exchanges}
use rc_plane.Link.Frames.Exchanges.{IsCut, exchanges-IsCut}
use rc_plane.Tests.Data.{utility, utility-IsConfigured, manager}
use rc_plane.Tests.Som.{som, opened, synced}
use rc_plane.Tests.Link.{
  toy_board, toy_board-IsBoard, toy_queues, no_text, centred, half_throttle, clear_link,
  sent_sketch, som-IsClear, sketch_after, som_after, run_exchanges,
}

-- A packet from before waits, and so does an idle answer.
abbrev early : Sent
early = (record centred { timestamp = 1000 }, imu_packet)

abbrev lag_link : Link Unit no_text
lag_link = record clear_link {
  up = up_bytes (early ∷ []);
  down = down_bytes (control_surface_packet ∷ []);
}

early-IsRcRxValue : IsRcRxValue early.0
early-IsRcRxValue = record {
  timestamp_lt = omega arith;
  state_lt = omega arith;
  motor_lt = omega arith;
  aileron_fits = omega arith;
  elevator_fits = omega arith;
  rudder_fits = omega arith;
}

lag_link-IsBehind : IsBehind (early ∷ []) (control_surface_packet ∷ []) som lag_link
lag_link-IsBehind = record {
  up_waits = refl;
  down_waits = refl;
  sent_values = ((early-IsRcRxValue, toy_board-IsBoard.imu_value tt), tt);
  answer_values = (omega arith, tt);
  buffer_empty = refl;
  queues_open = opened;
  limit_fits = omega arith;
}

abbrev idle_sketch : Sketch
idle_sketch = record sent_sketch { control_surface = control_surface_packet }

-- The old packet has been answered, and the old answer taken.
abbrev som_lagged : SomController Unit Fixed
som_lagged = record som {
  debug_message = (som_after 1).debug_message;
  onboard_message = record (som_after 1).onboard_message { mcu_timestamp = 1000 };
}

abbrev lagged_link : Link Unit no_text
lagged_link = record clear_link {
  up = up_bytes ((centred, imu_packet) ∷ []);
  down = down_bytes (half_throttle ∷ []);
}

lagged :
    exchanges no_text toy_board toy_queues 1 sketch som lag_link
    ≡ some (idle_sketch ∷ [], som_lagged, lagged_link)
unfolding run_exchanges
lagged = refl

exchanges-IsDelayed_example :
    IsDelayed
      (early ∷ [])
      (control_surface_packet ∷ [])
      manager
      1
      (idle_sketch ∷ [])
      som_lagged
      lagged_link
exchanges-IsDelayed_example =
    exchanges-IsDelayed no_text toy_board toy_board-IsBoard toy_queues 1 (early ∷ [])
      (control_surface_packet ∷ []) sketch som som_lagged lag_link lagged_link (idle_sketch ∷ [])
      lag_link-IsBehind lagged

-- The sketch has sent its packets once before the controller starts.
abbrev piled_link : Link Unit no_text
piled_link = record clear_link { up = up_bytes ((centred, imu_packet) ∷ []) }

piled :
    loops (link_board no_text toy_board) Fixed 1 sketch clear_link
    ≡ some (sent_sketch ∷ [], piled_link)
unfolding run_exchanges
piled = refl

started_late :
    exchanges no_text toy_board toy_queues 1 sent_sketch som piled_link
    ≡ some (sketch_after ∷ [], som_after 1, piled_link)
unfolding run_exchanges
started_late = refl

loops-exchanges_example :
    All (λ (s' : Sketch). s'.control_surface ≡ control_surface_packet) (sent_sketch ∷ [])
    × (flown late : List Sent) × (map sent_packets (sent_sketch ∷ sketch_after ∷ [])
        ≡ flown ++ late)
    × (fly manager flown ≡ some (map got_packet (sketch_after ∷ []), manager))
    × (length late ≡ 1)
loops-exchanges_example =
    loops-exchanges no_text toy_board toy_board-IsBoard toy_queues 1 1 sketch sent_sketch som
      (som_after 1) clear_link piled_link piled_link (sent_sketch ∷ []) (sketch_after ∷ [])
      som-IsClear (omega arith) piled started_late

abbrev always : Host (Link Unit no_text)
always = record { is_stopped = λ w. (false, w); sleep_ms = λ _ w. w }

abbrev som_deaf : SomController Unit Fixed
som_deaf = record som {
  debug_message = record som.debug_message {
    serial_read_timeouts = 2;
    serial_writes = 1;
    main_loop_counter = 1;
  };
  onboard_message = record som.onboard_message { autopilot_type = 1 };
}

abbrev deaf_link : Link Unit no_text
deaf_link = record clear_link { down = down_bytes (control_surface_packet ∷ []) }

deaf : run_rounds (link_queues toy_queues) always 1 som clear_link ≡ some (som_deaf, deaf_link)
unfolding run_exchanges
deaf = refl

abbrev som_back : SomController Unit Fixed
som_back = record som_deaf {
  debug_message = record som_deaf.debug_message {
    serial_reads = 2;
    serial_writes = 2;
    main_loop_counter = 2;
  };
  onboard_message = (som_after 1).onboard_message;
}

abbrev back_link : Link Unit no_text
back_link = record clear_link { down = down_bytes (half_throttle ∷ []) }

spoke_again :
    exchanges no_text toy_board toy_queues 1 sketch som_deaf deaf_link
    ≡ some (idle_sketch ∷ [], som_back, back_link)
unfolding run_exchanges
spoke_again = refl

zero_fits : cast_uint8 (fixed_double.of_float32 0) ≡ some 0
unfolding cast_uint8 rc_plane.Base.Int.◌/ℤ◌
zero_fits = refl

run_rounds-exchanges_example :
    (outs late : List ControlSurfacePacket) × (fly manager (map sent_packets (idle_sketch ∷ []))
      ≡ some (outs, manager))
    × (replicate 1 control_surface_packet ++ outs ≡ map got_packet (idle_sketch ∷ []) ++ late)
    × (length late ≡ 1)
run_rounds-exchanges_example =
    run_rounds-exchanges no_text toy_board toy_board-IsBoard toy_queues always 1 1 0 utility sketch
      som som_deaf som_back clear_link deaf_link back_link (idle_sketch ∷ []) (λ _. refl) zero_fits
      utility-IsConfigured refl synced som-IsClear deaf spoke_again

-- One byte too many: the throttle is read as the aileron stick.
abbrev stray_link : Link Unit no_text
stray_link = record clear_link { up = 7 ∷ [] }

abbrev banked : ControlSurfacePacket
banked = record control_surface_packet { aileron_deflection = pos 17 }

abbrev som_stray : SomController Unit Fixed
som_stray = record (som_after 1) {
  onboard_message = record (som_after 1).onboard_message {
    mcu_timestamp = 1280007;
    throttle = 0;
    aileron_deflection = pos 17;
  };
}

abbrev banked_sketch : Sketch
banked_sketch = record sent_sketch { control_surface = banked }

abbrev left_link : Link Unit no_text
left_link = record clear_link { up = 0 ∷ [] }

strayed :
    exchanges no_text toy_board toy_queues 1 sketch som stray_link
    ≡ some (banked_sketch ∷ [], som_stray, left_link)
unfolding run_exchanges
strayed = refl

exchanges-IsCut_example :
    IsCut no_text toy_board toy_board-IsBoard toy_queues
      (7 ∷ [])
      som
      1
      (banked_sketch ∷ [])
      som_stray
      left_link
exchanges-IsCut_example =
    exchanges-IsCut no_text toy_board toy_board-IsBoard toy_queues 1 sketch som som_stray stray_link
      left_link (banked_sketch ∷ []) strayed
