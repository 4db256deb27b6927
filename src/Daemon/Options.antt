-- ===== src/Daemon/Options.antt =====
-- posix/daemon/daemon.c: what `start` takes from its arguments. `argv` has `argc` elements, each an
-- argument's bytes.
use sysprogramming_examples.Prelude.{ℕ, ◌==◌, List, [], ◌∷◌, ltb, if◌then◌else◌, ℤ, pos, negsuc}
use sysprogramming_examples.Prelude.Run.{Run, ok, fault}
use sysprogramming_examples.Memory.{length}

-- "localhost" and "7000"
abbrev localhost : List ℕ
localhost = 108 ∷ 111 ∷ 99 ∷ 97 ∷ 108 ∷ 104 ∷ 111 ∷ 115 ∷ 116 ∷ []

abbrev default_port : List ℕ
default_port = 55 ∷ 48 ∷ 48 ∷ 48 ∷ []

unfoldable pub server_name : (argv : List (List ℕ)) → List ℕ
server_name [] = localhost
server_name (program ∷ []) = localhost
server_name (program ∷ command ∷ []) = localhost
server_name (program ∷ command ∷ name ∷ more) = name

-- A buffer of 1024 bytes gets the text and its terminating 0.
unfoldable pub service_or_server_port : (argv : List (List ℕ)) → Run (List ℕ)
service_or_server_port [] = ok default_port
service_or_server_port (program ∷ []) = ok default_port
service_or_server_port (program ∷ command ∷ []) = ok default_port
service_or_server_port (program ∷ command ∷ name ∷ more) =
    if ltb (length name) 1024 then ok name else fault

unfoldable pub ip_version : (atoi : List ℕ → ℤ) → (argv : List (List ℕ)) → ℤ
ip_version atoi [] = negsuc 0
ip_version atoi (program ∷ []) = negsuc 0
ip_version atoi (program ∷ command ∷ []) = negsuc 0
ip_version atoi (program ∷ command ∷ name ∷ []) = negsuc 0
ip_version atoi (program ∷ command ∷ name ∷ version ∷ more) = atoi version

-- `hints.ai_family`, or 0 for any
pub data Family : Type 0 where
  any inet inet6 : Family

unfoldable pub family_hint : (version : ℤ) → Family
family_hint (pos n) = if n == 4 then inet else if n == 6 then inet6 else any
family_hint (negsuc n) = any
