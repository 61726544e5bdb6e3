-- ===== src/Extension.antt =====
-- The extension module of bjoern/_bjoernmodule.c: what `run` does before and after `server_run`,
-- the features that it tells of, and the dictionary that `_initialize_request_module` of
-- bjoern/request.c keeps for the whole process.
pub mod Runs
pub mod Tests
use bjoern.Common.{
  ℕ, Bool, true, false, Option, none, some, List, [], ◌∷◌, Bytes, codes, bytes_eq, ◌==◌, ◌&&◌,
  ◌>>=◌, if◌then◌else◌,
}
use bjoern.Python.{Dict}
use bjoern.Request.Environ.{wsgi_base_dict}

-- The macros of a build.
pub record Build : Type 0 where
  pub want_signal_handling : Bool
  pub want_sigint_handling : Bool
  pub want_statsd : Bool
  pub want_statsd_tags : Bool

abbrev pub features : Build → List (Bytes × Bool)
features b =
    (codes "has_signal_handling", b.want_signal_handling)
    ∷ (codes "has_sigint_handling", b.want_sigint_handling)
    ∷ (codes "has_statsd", b.want_statsd)
    ∷ (codes "has_statsd_tags", b.want_statsd_tags)
    ∷ []

-- What `getsockname` of the socket object gives: there may be no such method, it may raise, and it
-- may return a pair of a host and a port, which may be `None`, or something else.
pub data SockName : Type 0 where
  no_method : SockName
  raising : SockName
  host_and_port : Bytes → Option Bytes → SockName
  other_name : SockName

-- The socket object: its descriptor, if it has one.
pub record Socket : Type 0 where
  pub descriptor : Option ℕ
  pub getsockname : SockName

-- The arguments of a call of `run`, for the units of its format behind `OO`. `none` stands for an
-- argument that is not given; a text may be `None`. An `int` stands for its bits.
pub record Arguments : Type 0 where
  pub socket : Socket
  pub enabled : Option ℕ
  pub host : Option (Option Bytes)
  pub port : Option ℕ
  pub ns : Option (Option Bytes)
  pub tags : Option (Option Bytes)

-- The connection to a statsd server.
pub data Link : Type 0 where
  no_link : Link
  statsd_init : Bytes → ℕ → Link
  statsd_init_with_namespace : Bytes → ℕ → Bytes → Link

pub record ServerInfo : Type 0 where
  pub sockfd : ℕ
  pub address : Option (Bytes × Option Bytes)
  pub statsd : Link
  pub statsd_tags : Option Bytes

-- `run` raises, or calls `server_run`.
pub data RunResult : Type 0 where
  raised : RunResult
  served : ServerInfo → RunResult

-- `PyArg_ParseTuple` stores an argument that is given, and leaves the variable of another.
abbrev pub stored : {A : Type 0} → Option A → A → A
stored none before = before
stored (some a) before = a

-- Whether a build without statsd finds statsd arguments: two variables take them all, one after the
-- other.
abbrev pub is_null : Option Bytes → Bool
is_null none = true
is_null (some s) = false

abbrev pub no_statsd_arguments : Arguments → Bool
no_statsd_arguments args =
    let ignored_str = stored args.tags (stored args.ns (stored args.host none)) in
    let ignored_int = stored args.port (stored args.enabled 0) in
    is_null ignored_str && (ignored_int == 0)

-- A text that is `NULL` or empty.
abbrev pub text_or : Option Bytes → Bytes → Bytes
text_or none default = default
text_or (some []) default = default
text_or (some (b ∷ s)) default = b ∷ s

abbrev pub statsd_link : Option Bytes → ℕ → Option Bytes → Link
statsd_link host port none = statsd_init (text_or host (codes "127.0.0.1")) port
statsd_link host port (some []) = statsd_init (text_or host (codes "127.0.0.1")) port
statsd_link host port (some (b ∷ s)) =
    statsd_init_with_namespace (text_or host (codes "127.0.0.1")) port (b ∷ s)

-- The link and the tags, which are set only where statsd is enabled, that a build with statsd takes
-- from the arguments; `none` where one of the four that it wants is missing.
unfoldable pub statsd_arguments : Arguments → Option (Link × Option Bytes)
statsd_arguments args = do
  enabled ← args.enabled
  host ← args.host
  port ← args.port
  ns ← args.ns
  some (if enabled == 0 then (no_link, none) else (statsd_link host port ns, stored args.tags none))

-- What a build makes of the arguments; `none` where it raises.
unfoldable pub parse_arguments : Build → Arguments → Option (Link × Option Bytes)
unfolding statsd_arguments
parse_arguments b args =
    if b.want_statsd
    then statsd_arguments args
    else if no_statsd_arguments args
    then some (no_link, none)
    else none

-- `info.host` and `info.port`; `none` where `getsockname` raises.
abbrev pub socket_address : SockName → Option (Option (Bytes × Option Bytes))
socket_address no_method = some none
socket_address raising = none
socket_address (host_and_port host port) = some (some (host, port))
socket_address other_name = some none

unfoldable pub server_info : Build → Arguments → Option ServerInfo
unfolding parse_arguments
server_info b args = do
  parsed ← parse_arguments b args
  fd ← args.socket.descriptor
  address ← socket_address args.socket.getsockname
  some (record {
    sockfd = fd;
    address = address;
    statsd = parsed.0;
    statsd_tags = if b.want_statsd_tags then parsed.1 else none;
  })

-- `wsgi_base_dict` is a variable of the process, at first `NULL`; the import of `io` succeeds.
abbrev pub initialize_request_module : ServerInfo → Option Dict → Dict
initialize_request_module info none = wsgi_base_dict info.address
initialize_request_module info (some base) = base

abbrev pub run_with : Option ServerInfo → Option Dict → RunResult × Option Dict
run_with none base = (raised, base)
run_with (some info) base = (served info, some (initialize_request_module info base))

-- The call, and the dictionary of the process that its requests get and that it leaves.
unfoldable pub run : Build → Arguments → Option Dict → RunResult × Option Dict
unfolding server_info
run b args base = run_with (server_info b args) base

-- The dictionary of the process after these runs, one after the other.
unfoldable pub runs : Build → List Arguments → Option Dict → Option Dict
unfolding run
runs b [] base = base
runs b (args ∷ later) base = runs b later (run b args base).1

-- The `statsd` argument of `bjoern.run`.
pub record StatsdConfig : Type 0 where
  pub enable : Bool
  pub host : Option Bytes
  pub port : ℕ
  pub ns : Option Bytes
  pub tags : Option Bytes

abbrev pub int_of : Bool → ℕ
int_of true = 1
int_of false = 0

abbrev pub with_statsd : Socket → Option StatsdConfig → Arguments
with_statsd socket (some statsd) = record {
  socket = socket;
  enabled = some (int_of statsd.enable);
  host = some statsd.host;
  port = some statsd.port;
  ns = some statsd.ns;
  tags = some statsd.tags;
}
with_statsd socket none = record {
  socket = socket;
  enabled = some 0;
  host = some none;
  port = some 0;
  ns = some none;
  tags = some none;
}

-- `features.get`; `None` counts as false.
unfoldable pub get_feature : Bytes → List (Bytes × Bool) → Bool
unfolding bytes_eq
get_feature key [] = false
get_feature key ((k, v) ∷ table) = if bytes_eq k key then v else get_feature key table

-- `server_run` of bjoern.py: the arguments with which it calls the extension, by the table of
-- features.
unfoldable pub front_end : List (Bytes × Bool) → Socket → Option StatsdConfig → Arguments
unfolding get_feature
front_end table socket statsd =
    if get_feature (codes "has_statsd") table then with_statsd socket statsd else record {
      socket = socket;
      enabled = none;
      host = none;
      port = none;
      ns = none;
      tags = none;
    }
