-- ===== src/Options/Tests.antt =====
-- Command lines, and the theorems at them.
use iowrapper.Base.{◌≡◌, refl, true, false, none, [], ◌∷◌, pos, is_zero, done, exit, fault}
use iowrapper.Options.{
  Config, port, connections, msglen, fixed, help, defaults, parse, positional, check, finish_config,
  configure,
}
use iowrapper.Options.Laws.{configure_passes}

-- `server -p 8080 -f -n 2 -l 0`
abbrev configured : Config
configured = record {
  portno = pos 8080;
  registerfiles = true;
  max_connections = pos 34;
  msg_len = pos 128;
}

configured_lem :
    configure false (port (pos 8080) ∷ fixed ∷ connections (pos 2) ∷ msglen (pos 0) ∷ []) none
    ≡ done configured
unfolding configure parse check positional finish_config defaults
configured_lem = refl

help_lem : configure false (help ∷ port (pos 8080) ∷ []) none ≡ exit 0
unfolding configure parse
help_lem = refl

no_argument : configure false [] none ≡ fault
unfolding configure parse check positional defaults
no_argument = refl

configure_passes_example :
    (is_zero configured.portno ≡ false) × (false ≡ false → is_zero configured.msg_len ≡ false)
configure_passes_example =
    configure_passes false (port (pos 8080) ∷ fixed ∷ connections (pos 2) ∷ msglen (pos 0) ∷ [])
      none configured configured_lem
