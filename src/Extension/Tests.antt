-- ===== src/Extension/Tests.antt =====
-- Inputs for the theorems on bjoern/_bjoernmodule.c.
use bjoern.Common.{◌≡◌, refl, true, false, none, some, [], ◌∷◌, codes, Bytes, bytes_eq, Option}
use bjoern.Python.{Dict, text, get_item}
use bjoern.Request.Parse.{HttpParser, complete_environ}
use bjoern.Extension.{
  Link, StatsdConfig, Build, features, get_feature, Socket, host_and_port, Arguments, no_link,
  parse_arguments, front_end, runs,
}
use bjoern.Extension.Runs.{AsksFor, first_address_stays, front_end_accepted}

abbrev plain : Build
plain = record {
  want_signal_handling = true;
  want_sigint_handling = true;
  want_statsd = false;
  want_statsd_tags = false;
}

abbrev listening : Bytes → Bytes → Socket
listening host port = record { descriptor = some 5; getsockname = host_and_port host (some port) }

abbrev first_run : Arguments
first_run = front_end (features plain) (listening (codes "127.0.0.1") (codes "8000")) none

abbrev second_run : Arguments
second_run = front_end (features plain) (listening (codes "10.0.0.7") (codes "9000")) none

abbrev http11 : HttpParser
http11 = record { http_major = 1; http_minor = 1; content_length = 0; method = codes "GET" }

first_address_stays_example :
    (base : Dict) × (runs plain (first_run ∷ second_run ∷ []) none ≡ some base)
    × (get_item (codes "SERVER_NAME") (complete_environ http11 (codes "10.0.0.1") base [])
        ≡ some (text (codes "127.0.0.1")))
unfolding front_end get_feature bytes_eq parse_arguments
first_address_stays_example =
    first_address_stays plain first_run (second_run ∷ []) (no_link, none) 5 (codes "127.0.0.1")
      (some (codes "8000")) http11 (codes "10.0.0.1") [] refl refl refl

abbrev with_link : Build
with_link = record plain { want_statsd = true }

abbrev in_namespace : Option StatsdConfig
in_namespace =
    some (record { enable = true; host = none; port = 8125; ns = some (codes "web"); tags = none })

front_end_accepted_example :
    (link : Link) × (tags : Option Bytes) × (parse_arguments with_link
        (front_end (features with_link) (listening (codes "127.0.0.1") (codes "8000")) in_namespace)
      ≡ some (link, tags))
    × AsksFor in_namespace link tags
front_end_accepted_example =
    front_end_accepted with_link (listening (codes "127.0.0.1") (codes "8000")) in_namespace
