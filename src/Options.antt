-- ===== src/Options.antt =====
-- The command line of io_uring_echo_server_v1.c, _v2.c and _v3.c
-- (netpoll/echo/c-iouring-server). getopt and atoi are not in the repository: the options come as
-- a list, their arguments as the numbers that atoi makes of them.
pub mod Laws
mod Tests
use iowrapper.Base.{
  ℕ, Bool, true, false, ◌&&◌, ◌||◌, Option, none, some, List, [], ◌∷◌, ℤ, pos, is_zero, exceeds,
  add_nat, Outcome, done, exit, fault, ◌>>=◌, if◌then◌else◌,
}

-- What getopt returns for "p:fn:l:h", in order.
pub data Opt : Type 0 where
  port connections msglen : ℤ → Opt
  fixed help unknown : Opt

pub record Config : Type 0 where
  pub portno : ℤ
  pub registerfiles : Bool
  pub max_connections : ℤ
  pub msg_len : ℤ

-- The initial values of the static variables.
unfoldable pub defaults : Config
defaults = record {
  portno = pos 0;
  registerfiles = false;
  max_connections = pos 4092;
  msg_len = pos 2046;
}

-- The loop over the options.
unfoldable pub parse : Config → List Opt → Outcome Config
parse c [] = done c
parse c (port n ∷ os) = parse (record c { portno = n }) os
parse c (fixed ∷ os) = parse (record c { registerfiles = true }) os
parse c (connections n ∷ os) = parse (record c { max_connections = n }) os
parse c (msglen n ∷ os) = parse (record c { msg_len = n }) os
parse c (help ∷ os) = exit 0
parse c (unknown ∷ os) = exit 1

-- The port from `argv[1]`, which is missing (NULL) where the command line is empty.
unfoldable pub positional : Config → Option ℤ → Outcome Config
positional c none = fault
positional c (some given) =
    if is_zero c.portno && exceeds given 3000 then done (record c { portno = given }) else exit 1

-- `if (!msg_len) msg_len = 128;`, which version 2 (`strict`) does not have, and
-- `max_connections += 32;`.
unfoldable pub finish_config : Bool → Config → Outcome Config
finish_config strict c = done (record c {
  msg_len = if strict then c.msg_len else if is_zero c.msg_len then pos 128 else c.msg_len;
  max_connections = add_nat c.max_connections 32;
})

-- The checks behind the loop. The test of version 2 asks for a message length as well.
unfoldable pub check : Bool → Config → Option ℤ → Outcome Config
check strict c argv1 =
    (if is_zero c.portno || (is_zero c.max_connections || (strict && is_zero c.msg_len))
      then positional c argv1
      else done c)
    >>= λ c'. finish_config strict c'

unfoldable pub configure : Bool → List Opt → Option ℤ → Outcome Config
configure strict os argv1 = parse defaults os >>= λ c. check strict c argv1
