-- ===== src/Extension/Runs.antt =====
-- Runs of the server in one process, by `run` of bjoern/_bjoernmodule.c.
use bjoern.Common.{
  Bool, true, false, sym, subst, ℕ, ◌≡◌, refl, ◌∙◌, ap, Option, none, some, List, [], ◌∷◌, Bytes,
  bytes_eq, codes, Bool-cases, inl, inr,
}
use bjoern.Python.{Dict, text, get_item}
use bjoern.Request.Parse.{HttpParser, complete_environ}
use bjoern.Request.Environ.{wsgi_base_dict, complete_environ-base}
use bjoern.Extension.{
  Build, features, get_feature, host_and_port, Socket, Arguments, Link, no_link, statsd_init,
  statsd_init_with_namespace, ServerInfo, server_info, parse_arguments, statsd_arguments,
  statsd_link, run, run_with, runs, StatsdConfig, front_end, with_statsd,
}

run_served :
    (b : Build) (args : Arguments) (parsed : Link × Option Bytes) (fd : ℕ) (host : Bytes)
    (port : Option Bytes)
    → parse_arguments b args ≡ some parsed
    → args.socket.descriptor ≡ some fd
    → args.socket.getsockname ≡ host_and_port host port
    → (run b args none).1 ≡ some (wsgi_base_dict (some (host, port)))
unfolding run server_info wsgi_base_dict
run_served b args parsed fd host port e d n = rw (e, d, n) refl

run_again : (b : Build) (args : Arguments) (base : Dict) → (run b args (some base)).1 ≡ some base
unfolding run
run_again b args base = go (server_info b args)
  where
    go : (o : Option ServerInfo) → (run_with o (some base)).1 ≡ some base
    go none = refl
    go (some info) = refl

runs_keep :
    (b : Build) (later : List Arguments) (base : Dict) → runs b later (some base) ≡ some base
unfolding runs
runs_keep b [] base = refl
runs_keep b (args ∷ later) base = ap (runs b later) (run_again b args base) ∙ runs_keep b later base

server_name :
    (host : Bytes) (port : Option Bytes)
    → get_item (codes "SERVER_NAME") (wsgi_base_dict (some (host, port))) ≡ some (text host)
unfolding get_item bytes_eq wsgi_base_dict
server_name host port = refl

-- When the first run in a process gets through its arguments, with a socket that has a descriptor
-- and a host and a port for its name, every request of that run and of each later run, whatever
-- socket the later runs listen on, gets the host of the first socket as its `SERVER_NAME`, whatever
-- headers the client sent.
pub first_address_stays :
    (b : Build) (first : Arguments) (later : List Arguments) (parsed : Link × Option Bytes) (fd : ℕ)
    (host : Bytes) (port : Option Bytes) (http : HttpParser) (addr : Bytes) (d : Dict)
    → parse_arguments b first ≡ some parsed
    → first.socket.descriptor ≡ some fd
    → first.socket.getsockname ≡ host_and_port host port
    → (base : Dict) × (runs b (first ∷ later) none ≡ some base)
      × (get_item (codes "SERVER_NAME") (complete_environ http addr base d) ≡ some (text host))
unfolding runs
first_address_stays b first later parsed fd host port http addr d e h n =
    let base = wsgi_base_dict (some (host, port)) in
    (
      base,
      ap (runs b later) (run_served b first parsed fd host port e h n) ∙ runs_keep b later base,
      complete_environ-base http addr (some (host, port)) d (codes "SERVER_NAME") (text host)
          (server_name host port),
    )

-- A text of the configuration that is given and not empty.
abbrev given : Option Bytes → Option Bytes
given none = none
given (some []) = none
given (some (b ∷ s)) = some (b ∷ s)

-- A link to this host and port, for names in this namespace, or in none.
abbrev LinksTo : Bytes → ℕ → Option Bytes → Link → Type 0
LinksTo host port ns no_link = ⊥
LinksTo host port ns (statsd_init h p) = (h ≡ host) × (p ≡ port) × (ns ≡ none)
LinksTo host port ns (statsd_init_with_namespace h p n) = (h ≡ host) × (p ≡ port) × (ns ≡ some n)

abbrev host_of : Option Bytes → Bytes
host_of none = codes "127.0.0.1"
host_of (some h) = h

abbrev Configured : StatsdConfig → Bool → Link → Option Bytes → Type 0
Configured c true link tags =
    LinksTo (host_of (given c.host)) c.port (given c.ns) link × (tags ≡ c.tags)
Configured c false link tags = (link ≡ no_link) × (tags ≡ none)

-- What a configuration asks for: a link to its host, or to the own machine where it names none, its
-- port and its namespace, where it is enabled, and its tags.
abbrev pub AsksFor : Option StatsdConfig → Link → Option Bytes → Type 0
AsksFor none link tags = (link ≡ no_link) × (tags ≡ none)
AsksFor (some c) link tags = Configured c c.enable link tags

statsd_link-LinksTo :
    (host : Option Bytes) (port : ℕ) (ns : Option Bytes)
    → LinksTo (host_of (given host)) port (given ns) (statsd_link host port ns)
statsd_link-LinksTo none port none = (refl, refl, refl)
statsd_link-LinksTo none port (some []) = (refl, refl, refl)
statsd_link-LinksTo none port (some (b ∷ s)) = (refl, refl, refl)
statsd_link-LinksTo (some []) port none = (refl, refl, refl)
statsd_link-LinksTo (some []) port (some []) = (refl, refl, refl)
statsd_link-LinksTo (some []) port (some (b ∷ s)) = (refl, refl, refl)
statsd_link-LinksTo (some (h ∷ t)) port none = (refl, refl, refl)
statsd_link-LinksTo (some (h ∷ t)) port (some []) = (refl, refl, refl)
statsd_link-LinksTo (some (h ∷ t)) port (some (b ∷ s)) = (refl, refl, refl)

-- What the two branches of a build make of the configuration.
abbrev pub Takes : Bool → Option StatsdConfig → Link → Option Bytes → Type 0
Takes true statsd = AsksFor statsd
Takes false statsd = AsksFor none

with_statsd-AsksFor :
    (socket : Socket) (c : Option StatsdConfig)
    → (link : Link) × (tags : Option Bytes) × (statsd_arguments (with_statsd socket c)
        ≡ some (link, tags))
      × AsksFor c link tags
unfolding statsd_arguments
with_statsd-AsksFor socket none = (no_link, none, refl, (refl, refl))
with_statsd-AsksFor socket (some c) = elim (Bool-cases c.enable) [
  | inl on ↦ (
    statsd_link c.host c.port c.ns,
    c.tags,
    rw on refl,
    rw on (statsd_link-LinksTo c.host c.port c.ns, refl),
  )
  | inr off ↦ (no_link, none, rw off refl, rw off (refl, refl))
]

pub front_end_accepted :
    (b : Build) (socket : Socket) (statsd : Option StatsdConfig)
    → (link : Link) × (tags : Option Bytes) × (parse_arguments b
          (front_end (features b) socket statsd)
        ≡ some (link, tags))
      × Takes b.want_statsd statsd link tags
unfolding front_end parse_arguments get_feature bytes_eq
front_end_accepted b socket statsd = elim (Bool-cases b.want_statsd) [
  | inl on ↦
      let (link, tags, e, asked) = with_statsd-AsksFor socket statsd in
      (link, tags, rw on e, subst (λ w. Takes w statsd link tags) (sym on) asked)
  | inr off ↦
      (no_link, none, rw off refl, subst (λ w. Takes w statsd no_link none) (sym off) (refl, refl))
]
