-- ===== src/Options/Laws.antt =====
-- What a server that starts may rely on.
use iowrapper.Base.{
  ◌≡◌, Bool, true, false, Option, none, some, List, ℤ, pos, negsuc, refl, is_zero, done, ◌>>=◌,
  >>=-eq-done, arith, if◌then◌else◌,
}
use iowrapper.Options.{Opt, Config, defaults, parse, positional, check, finish_config, configure}

positional-done :
    (c c' : Config) (argv1 : Option ℤ)
    → positional c argv1 ≡ done c'
    → (is_zero c'.portno ≡ false) × (c'.msg_len ≡ c.msg_len)
unfolding positional
positional-done c c' none h = absurd (cc h)
positional-done c c' (some (pos n)) h = ground arith
positional-done c c' (some (negsuc n)) h = ground arith

check_config :
    (strict missing : Bool) (c c' : Config) (argv1 : Option ℤ)
    → (missing ≡ false → is_zero c.portno ≡ false)
    → ((if missing then positional c argv1 else done c) >>= λ d. finish_config strict d) ≡ done c'
    → (is_zero c'.portno ≡ false) × (strict ≡ false → is_zero c'.msg_len ≡ false)
unfolding finish_config
check_config strict true c c' argv1 p h =
    let (d, e, f) = >>=-eq-done (positional c argv1) _ h in
    let port = (positional-done c d argv1 e).0 in ground arith
check_config strict false c c' argv1 p h = ground (arith, p refl)

-- A configuration that `main` goes on with has a port, and in versions 1 and 3 a message length.
pub configure_passes :
    (strict : Bool) (os : List Opt) (argv1 : Option ℤ) (c : Config)
    → configure strict os argv1 ≡ done c
    → (is_zero c.portno ≡ false) × (strict ≡ false → is_zero c.msg_len ≡ false)
unfolding configure check
configure_passes strict os argv1 c h =
    let (d, _, e) = >>=-eq-done (parse defaults os) _ h in
    check_config strict _ d c argv1 (ground arith) e
