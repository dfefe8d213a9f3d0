-- ===== src/Sockets.antt =====
-- reactor/Socketops.h, Socketops.cc, Socket.h, Socket.cc, InetAddress.h and InetAddress.cc: addresses, and
-- what the wrappers make of the results of system calls. The C library is a record of functions; what a
-- system call returns is an argument. `VALGRING` is not defined.
pub mod Endpoint
mod Examples
use learn_for_cpp.Base.{
  ℕ, ◌-◌, Bool, true, false, ◌&&◌, Option, none, some, List, [], ◌∷◌, ◌++◌, take, ◌==◌,
}

-- What `inet_pton` returns: the address in network order, 0 for a text that is no address, or -1.
pub data Pton : Type 0 where
  parsed : ℕ → Pton
  no_address : Pton
  no_family : Pton

pub record Library : Type 0 where
  pub htons : ℕ → ℕ
  pub ntohs : ℕ → ℕ
  pub htonl : ℕ → ℕ
  pub inet_pton : List ℕ → Pton
  pub inet_ntop : ℕ → Option (List ℕ)
  -- `%u` of `snprintf`.
  pub print_unsigned : ℕ → List ℕ

pub host_to_network16 : Library → ℕ → ℕ
host_to_network16 lib = lib.htons

pub network_to_host16 : Library → ℕ → ℕ
network_to_host16 lib = lib.ntohs

pub host_to_network32 : Library → ℕ → ℕ
host_to_network32 lib = lib.htonl

-- `struct sockaddr_in` of the family AF_INET, in network order.
pub record InetAddress : Type 0 where
  pub port : ℕ
  pub addr : ℕ

-- `InetAddress(port)`; `INADDR_ANY` is 0.
pub any_address : Library → ℕ → InetAddress
any_address lib port = record { port = host_to_network16 lib port; addr = host_to_network32 lib 0 }

-- `fromHostToPort` into an address that is zero, and whether it logged an error.
pub from_host_to_port : Library → List ℕ → ℕ → InetAddress × Bool
from_host_to_port lib ip port =
    let port' = host_to_network16 lib port in
    elim (lib.inet_pton ip) [
      | parsed a ↦ (record { port = port'; addr = a }, false)
      | no_address ↦ (record { port = port'; addr = 0 }, false)
      | no_family ↦ (record { port = port'; addr = 0 }, true)
    ]

-- `InetAddress(ip, port)`.
pub new_address : Library → List ℕ → ℕ → InetAddress
new_address lib ip port = (from_host_to_port lib ip port).0

-- The bytes of "INVALID".
abbrev pub invalid : List ℕ
invalid = 73 ∷ 78 ∷ 86 ∷ 65 ∷ 76 ∷ 73 ∷ 68 ∷ []

abbrev pub host_of : Option (List ℕ) → List ℕ
host_of none = invalid
host_of (some host) = host

-- `toHostPort`: `snprintf` of "%s:%u" keeps one byte of the size for the zero byte.
pub to_host_port : Library → ℕ → InetAddress → List ℕ
to_host_port lib size a =
    take (size - 1)
      (host_of (lib.inet_ntop a.addr) ++ (58 ∷ lib.print_unsigned (network_to_host16 lib a.port)))

-- `InetAddress::toHostPort`, whose buffer has 32 bytes.
pub to_string : Library → InetAddress → List ℕ
to_string lib = to_host_port lib 32

-- `getLocalAddr` and `getPeerAddr`, and whether they logged an error: the address is zero then.
pub get_addr : Option InetAddress → InetAddress × Bool
get_addr none = (record { port = 0; addr = 0 }, true)
get_addr (some a) = (a, false)

-- `isSelfConnect`, with what `getsockname` and `getpeername` gave.
pub is_self_connect : Option InetAddress → Option InetAddress → Bool
is_self_connect local peer =
    let (l, _) = get_addr local in
    let (p, _) = get_addr peer in (l.port == p.port) && (l.addr == p.addr)

-- `getsockopt` gave the option, or failed with an `errno`.
pub data SockOpt : Type 0 where
  option_value : ℕ → SockOpt
  option_error : ℕ → SockOpt

pub get_socket_error : SockOpt → ℕ
get_socket_error (option_value v) = v
get_socket_error (option_error errno) = errno

-- `createNonblockingOrDie`, `bindOrDie`, `listenOrDie`, `closefd` and `shutdownWrite`: whether they
-- logged an error. None of them ends the program.
abbrev pub logs : Bool → Bool
logs true = false
logs false = true

-- The descriptor, or -1.
pub create_nonblocking_or_die : Option ℕ → Option ℕ × Bool
create_nonblocking_or_die none = (none, logs false)
create_nonblocking_or_die (some fd) = (some fd, logs true)

pub bind_or_die : Bool → Bool
bind_or_die ok = logs ok

pub listen_or_die : Bool → Bool
listen_or_die ok = logs ok

pub close_fd : Bool → Bool
close_fd ok = logs ok

pub shutdown_write : Bool → Bool
shutdown_write ok = logs ok
