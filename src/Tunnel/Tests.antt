-- ===== src/Tunnel/Tests.antt =====
-- The engine of the tunnel, started twice and stopped.
use uptp.Common.{refl, none, List, [], ◌∷◌}
use uptp.Tunnel.Engine.{
  Key, Answers, Call, starts, stops, inserts, run, fresh, IsNeverRunning, run-IsNeverRunning,
}

abbrev key : Key
key = record { log_level = "info"; udp_timeout = 0; device = "utun"; mtu = 1500 }

abbrev fine : Answers
fine = record { parse_level = none; parse_device = none; create_stack = none }

abbrev calls : List Call
calls = inserts key ∷ starts fine ∷ stops ∷ starts fine ∷ []

fresh-IsNeverRunning : IsNeverRunning fresh
fresh-IsNeverRunning = record {
  not_running = refl;
  no_device_closed = refl;
  no_stack_closed = refl;
}

run-IsNeverRunning_example : IsNeverRunning (run calls fresh)
run-IsNeverRunning_example = run-IsNeverRunning calls fresh fresh-IsNeverRunning
