-- ===== src/Portmap/Listeners.antt =====
-- The listeners of a `Portmap`: `AddListener`, `DeleteListener`, `Close` and `convertIndex`.
-- A listener is named by the port that its `getPort` returns. The system decides whether a new
-- socket opens, so its answer is an argument. Each method is one step; `AddListener` holds `connMtx` for reading only.
use uptp.Common.{◌≡◌, ◌≢◌, none, some, String, [], Result, ok, err, panic, text_eq}
use uptp.Common.{if◌then◌else◌, ◌==◌, arith, eq_iff}
use Prim.Native.String.{◌++◌ as append}
use uptp.Common.Int.{ℤ, pos}
use uptp.Common.Decimal.{format_int}
use uptp.Common.GoMap.{GoMap, lookup, insert, delete, lookup-insert, lookup-delete}

abbrev pub Listeners : Type 0
Listeners = GoMap String ℤ

-- `fmt.Sprintf("%s://%s:%d", network, ip, port)`
unfoldable pub convert_index : String → String → ℤ → String
unfolding format_int
convert_index network ip port =
    append network (append "://" (append ip (append ":" (format_int port))))

-- The answer is that of `addTCPListener` or `addUDPListener`, and is asked for on a new key only.
unfoldable pub add_listener : String → String → ℤ → Result ℤ → Listeners → Result ℤ × Listeners
add_listener network ip port answer ls = elim (lookup (convert_index network ip port) ls) [
  | some real ↦ (ok real, insert (convert_index network ip real) real ls)
  | none ↦ elim answer [
    | ok real ↦ (ok real, insert (convert_index network ip real) real ls)
    | err e ↦ (err e, ls)
    | panic ↦ (panic, ls)
  ]
]

unfoldable pub delete_listener : String → String → ℤ → Listeners → Listeners
delete_listener network ip port ls =
    let index = convert_index network ip port in
    elim (lookup index ls) [ none ↦ ls | some real ↦ delete index ls ]

-- `Close`, whose listeners all go.
unfoldable pub close : Listeners → Listeners
close ls = []

-- Where `AddListener` returns a port, the listener stands under that port's key, and under every
-- other key nothing changed; where it returns an error, no listener was added.
pub lookup-add_listener :
    (network ip key : String) (port real : ℤ) (answer : Result ℤ) (ls : Listeners)
    → (add_listener network ip port answer ls).0 ≡ ok real
    → lookup key (add_listener network ip port answer ls).1
      ≡ (if convert_index network ip real == key then some real else lookup key ls)
unfolding add_listener
lookup-add_listener network ip key port real answer ls h =
    ground (arith, lookup-insert (convert_index network ip real) key real ls)

pub add_listener_failed :
    (network ip : String) (port : ℤ) (answer : Result ℤ) (ls : Listeners) (e : String)
    → (add_listener network ip port answer ls).0 ≡ err e
    → (add_listener network ip port answer ls).1 ≡ ls
unfolding add_listener
add_listener_failed network ip port answer ls e h = ground arith

-- After `DeleteListener` no listener stands under the key, and the others are as they were.
pub lookup-delete_listener :
    (network ip key : String) (port : ℤ) (ls : Listeners)
    → lookup key (delete_listener network ip port ls)
      ≡ (if convert_index network ip port == key then none else lookup key ls)
unfolding delete_listener
lookup-delete_listener network ip key port ls = ground (
  arith,
  lookup-delete (convert_index network ip port) key ls,
  eq_iff (convert_index network ip port) key,
)

-- Where no listener stands under port 0 and the port that the system chooses has another key, a
-- listener opened at port 0 is not closed by a deletion at port 0: the table is the one before
-- with the new listener under the chosen port.
pub delete_listener_port_zero :
    (network ip : String) (real : ℤ) (ls : Listeners)
    → lookup (convert_index network ip (pos 0)) ls ≡ none
    → convert_index network ip real ≢ convert_index network ip (pos 0)
    → delete_listener network ip (pos 0) (add_listener network ip (pos 0) (ok real) ls).1
      ≡ insert (convert_index network ip real) real ls
unfolding add_listener delete_listener
delete_listener_port_zero network ip real ls free other =
    let zero_key = convert_index network ip (pos 0) in
    let real_key = convert_index network ip real in
    ground (arith, lookup-insert real_key zero_key real ls, eq_iff real_key zero_key)
