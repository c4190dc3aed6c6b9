-- ===== src/Serial/Tests.antt =====
-- Serial ports at concrete inputs.
use cwkeyer.Base.{List, ◌≡◌, refl, true, false, [], ◌∷◌}
use cwkeyer.Base.Text.{codes}
use cwkeyer.Remote.Handshake.{starts_with}
use cwkeyer.Serial.{start, Opening, new_serial_comm}
use cwkeyer.Serial.Ports.{list_ports, full_paths, is_serial_device}
use cwkeyer.Serial.Proxy.{N1mmProxy, start_proxy, stop_proxy, stop_leaks}
use cwkeyer.Serial.Windows
use cwkeyer.Base.Int.{pos}
use cwkeyer.Serial.Threads
use cwkeyer.Serial.Threads.{
  Keying, KeyEvent, plays, goes_on, key_steps, key_step, run_cw, advance, task_at, run_task,
  write_dtr, key_steps-released,
}
use cwkeyer.Timing.{dit, dah}
use cwkeyer.Serial.Windows.{WinSerial, process_queue, play_request}
use cwkeyer.Serial.Queue.{requests, works, played, queue_step, queue_steps, queue_steps-played}
use cwkeyer.Serial.WindowsProxy.{
  WinProxy, returned, terminates, start_win_proxy, stop_win_proxy, second_start_terminates,
}

abbrev opening : Opening
opening = record { opens = true; gets = true; sets = true }

lists_ports :
    list_ports (λ ports. ports) (λ path. true) (codes "tty0" ∷ codes "ttyUSB0" ∷ [])
    ≡ codes "/dev/ttyUSB0" ∷ []
unfolding list_ports full_paths is_serial_device starts_with
lists_ports = refl

abbrev running : N1mmProxy
running = record {
  port = record {
    serial = true;
    running = true;
    rts_control = false;
    dtr_control = false;
    lines = record { dtr = false; rts = false };
    opened = 1;
  };
  piped = true;
  thread = true;
}

stop_leaks_example :
    ((stop_proxy running).port.serial ≡ true)
    × ((stop_proxy running).port.opened ≡ 1)
    × ((start_proxy true opening (stop_proxy running)).0.port.opened ≡ 2)
stop_leaks_example = stop_leaks opening running refl refl refl refl refl

abbrev win_proxy : WinProxy
win_proxy = record {
  port = record { handle = false; running = false; worker = false; queue = []; outputs = [] };
  stop_event = false;
  dsr_thread = false;
}

abbrev win_opening : Windows.Opening
win_opening = record { creates = true; gets = true; sets = true }

second_start_terminates_example :
    (q : WinProxy) × (start_win_proxy true win_opening win_proxy ≡ returned q true)
    × (start_win_proxy true win_opening (stop_win_proxy q) ≡ terminates)
second_start_terminates_example =
    second_start_terminates win_opening true win_proxy refl refl refl refl refl refl refl

-- Two elements that overlap: the second thread begins before the first lowers the line.
abbrev overlapping : List KeyEvent
overlapping =
    Threads.starts opening 5
    ∷ plays (pos 60)
    ∷ plays (pos 60)
    ∷ goes_on 0
    ∷ goes_on 0
    ∷ goes_on 0
    ∷ goes_on 0
    ∷ []

abbrev keying : Keying
keying = record { port = new_serial_comm false false; fd = 0; tasks = [] }

key_steps-released_example : (key_steps overlapping keying).port.lines.dtr ≡ false
unfolding key_steps key_step start new_serial_comm run_cw advance task_at run_task write_dtr
key_steps-released_example = key_steps-released overlapping keying refl refl refl refl

abbrev win_port : WinSerial
win_port = record { handle = true; running = true; worker = true; queue = []; outputs = [] }

queue_steps-played_example :
    (queue_steps
      (requests dit (pos 60) ∷ works ∷ works ∷ requests dah (pos 180) ∷ works ∷ [])
      win_port).outputs
    ≡ played ((dit, pos 60) ∷ (dah, pos 180) ∷ [])
unfolding queue_steps queue_step process_queue play_request cwkeyer.Serial.Windows.run_cw
queue_steps-played_example =
    queue_steps-played (requests dit (pos 60) ∷ works ∷ works ∷ requests dah (pos 180) ∷ works ∷ [])
      win_port refl refl refl
