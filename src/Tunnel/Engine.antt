-- ===== src/Tunnel/Engine.antt =====
-- tun_stack/engine.go and tun_stack/stack.go: the engine that the package keeps in global variables.
-- Each function holds `_engineMu` and is one step; the answers of tun2socks are arguments.
use uptp.Common.{
  ℕ, ◌+◌, ◌≡◌, arith, Bool, false, Option, none, some, String, List, [], ◌∷◌, if◌then◌else◌, ◌&&◌,
  ltb,
}

-- `Key`, as far as it is read here: the level's name, the timeout in nanoseconds, and the device.
pub record Key : Type 0 where
  pub log_level : String
  pub udp_timeout : ℕ
  pub device : String
  pub mtu : ℕ

-- The global variables, a device and a stack by their numbers, with the devices and the stacks that
-- were made and those that were closed.
pub record Engine : Type 0 where
  pub running : Bool
  pub default_key : Option Key
  pub default_device : Option ℕ
  pub default_stack : Option ℕ
  pub devices_made : ℕ
  pub stacks_made : ℕ
  pub devices_closed : List ℕ
  pub stacks_closed : List ℕ

-- What `log.ParseLevel`, `parseDevice` and `core.CreateStack` answer; `none` is no error.
pub record Answers : Type 0 where
  pub parse_level : Option String
  pub parse_device : Option String
  pub create_stack : Option String

-- A call: its error, or none; or a panic.
pub data Outcome : Type 0 where
  done panicked : Outcome
  failed : String → Outcome

abbrev pub second : ℕ
second = 1_000_000_000

-- `general`, but for the settings of the other package
unfoldable pub general : Answers → Key → Option String
general a k = elim a.parse_level [
  | some e ↦ some e
  | none ↦
      if ltb 0 k.udp_timeout && ltb k.udp_timeout second
      then some "invalid udp timeout value"
      else none
]

-- `netstack`, which sets each variable before it looks at the error
unfoldable pub netstack : Answers → Engine → Outcome × Engine
netstack a e = elim a.parse_device [
  | some x ↦ (failed x, record e { default_device = none })
  | none ↦
      let opened = record e {
        default_device = some e.devices_made;
        devices_made = e.devices_made + 1;
      } in
      elim a.create_stack [
        | some x ↦ (failed x, record opened { default_stack = none })
        | none ↦ (
          done,
          record opened { default_stack = some e.stacks_made; stacks_made = e.stacks_made + 1 },
        )
      ]
]

-- `start`. A nil key is dereferenced.
unfoldable pub start : Answers → Engine → Outcome × Engine
unfolding general netstack
start a e = if e.running then (done, e) else elim e.default_key [
  | none ↦ (panicked, e)
  | some k ↦ elim (general a k) [ some x ↦ (failed x, e) | none ↦ netstack a e ]
]

-- A number that is closed, where there is one.
abbrev pub closing : Option ℕ → List ℕ → List ℕ
closing none l = l
closing (some n) l = n ∷ l

unfoldable pub stop : Engine → Engine
stop e =
    if e.running
    then record e {
      devices_closed = closing e.default_device e.devices_closed;
      stacks_closed = closing e.default_stack e.stacks_closed;
    }
    else e

-- `Insert`
unfoldable pub insert : Key → Engine → Engine
insert k e = record e { default_key = some k }

-- `Wait`: whether it waits for the stack
unfoldable pub waits : Engine → Bool
waits e = e.running

pub data Call : Type 0 where
  starts : Answers → Call
  stops : Call
  inserts : Key → Call

unfoldable pub call : Call → Engine → Engine
unfolding start stop insert
call (starts a) e = (start a e).1
call stops e = stop e
call (inserts k) e = insert k e

unfoldable pub run : List Call → Engine → Engine
unfolding call
run [] e = e
run (c ∷ cs) e = run cs (call c e)

-- The engine of a program that starts
abbrev pub fresh : Engine
fresh = record {
  running = false;
  default_key = none;
  default_device = none;
  default_stack = none;
  devices_made = 0;
  stacks_made = 0;
  devices_closed = [];
  stacks_closed = [];
}

-- What no call changes: the engine does not count as running, and nothing was closed.
pub record IsNeverRunning (e : Engine) : Type 0 where
  pub not_running : e.running ≡ false
  pub no_device_closed : e.devices_closed ≡ []
  pub no_stack_closed : e.stacks_closed ≡ []

call-IsNeverRunning : (c : Call) (e : Engine) → IsNeverRunning e → IsNeverRunning (call c e)
unfolding call start stop insert netstack
call-IsNeverRunning (starts a) e h =
    ground (arith, h.not_running, h.no_device_closed, h.no_stack_closed)
call-IsNeverRunning stops e h = ground (arith, h.not_running, h.no_device_closed, h.no_stack_closed)
call-IsNeverRunning (inserts k) e h =
    ground (arith, h.not_running, h.no_device_closed, h.no_stack_closed)

-- An engine that does not count as running and that has closed nothing, as that of a program that
-- starts, stays so: whatever is started, stopped and inserted, no device and no stack is ever closed.
pub run-IsNeverRunning :
    (cs : List Call) (e : Engine) → IsNeverRunning e → IsNeverRunning (run cs e)
unfolding run
run-IsNeverRunning [] e h = h
run-IsNeverRunning (c ∷ cs) e h = run-IsNeverRunning cs (call c e) (call-IsNeverRunning c e h)

-- A start with a key whose answers have no error and whose timeout is none or at least a second opens
-- one more device and one more stack, on an engine that was started before too.
pub start_again :
    (a : Answers) (k : Key) (e : Engine)
    → IsNeverRunning e
    → e.default_key ≡ some k
    → general a k ≡ none
    → a.parse_device ≡ none
    → a.create_stack ≡ none
    → ((start a e).1.devices_made ≡ e.devices_made + 1)
      × ((start a e).1.stacks_made ≡ e.stacks_made + 1)
unfolding start netstack
start_again a k e h p g d s = ground (arith, h.not_running, p, g, d, s)
