-- ===== src/Daemon/LockFile.antt =====
-- posix/daemon/daemon.c: the commands start, stop and status, which go by the number of a process in a
-- lock file, and where the daemon listens. `kill`, `unlink` and `atoi` are parameters: `kill` says what
-- the call gives for a process, for its signal 0 as for SIGTERM, and `unlink` what is at the path of
-- the lock file after the call, whose result is not looked at. The number in the lock file is not that
-- of the process that reads it. Forks, the new session, the closing of
-- descriptors and the installation of handlers succeed and have no result here.
use sysprogramming_examples.Prelude.{
  ℕ, ◌==◌, ◌||◌, Bool, true, false, List, [], ◌∷◌, ◌++◌, ltb, if◌then◌else◌, ℤ, negsuc, is_neg,
  is_pos, is_zero,
}
use sysprogramming_examples.Prelude.Run.{Run, ok, fault}
use sysprogramming_examples.Memory.{length, take}

-- What `open` finds at the path of the lock file.
pub data LockFile : Type 0 where
  missing unreadable : LockFile
  content : List ℕ → LockFile

pub data Kill : Type 0 where
  kill_succeeds no_such_process kill_fails : Kill

-- `retcode < 0 && errno == ESRCH`
abbrev pub is_gone : Kill → Bool
is_gone kill_succeeds = false
is_gone no_such_process = true
is_gone kill_fails = false

-- get_daemon_pid: the process ends with an error, or a number is returned and the lock file is left.
pub data Lookup : Type 0 where
  exits : Lookup
  returned : (pid : ℤ) → LockFile → Lookup

-- What the calls do at some time.
pub record World : Type 0 where
  pub kill : ℤ → Kill
  pub unlink : LockFile → LockFile

unfoldable pub get_daemon_pid : (atoi : List ℕ → ℤ) → World → LockFile → Lookup
get_daemon_pid atoi w missing = returned (negsuc 0) missing
get_daemon_pid atoi w unreadable = exits
get_daemon_pid atoi w (content text) =
    let pid = atoi (take 20 text) in
    if is_gone (w.kill pid)
    then returned (negsuc 0) (w.unlink (content text))
    else returned pid (content text)

-- What is printed, and the lock file then.
pub data Status : Type 0 where
  status_exits : Status
  not_running : LockFile → Status
  running : (pid : ℤ) → LockFile → Status

-- show_status: what it prints.
unfoldable pub status_of : Lookup → Status
status_of exits = status_exits
status_of (returned pid lock_file) =
    if is_neg pid then not_running lock_file else running pid lock_file

unfoldable pub show_status : (atoi : List ℕ → ℤ) → World → LockFile → Status
show_status atoi w lock_file = status_of (get_daemon_pid atoi w lock_file)

pub data Stopped : Type 0 where
  stop_exits nothing_to_stop : Stopped
  -- SIGTERM was sent to `pid`, and what was printed a second later
  signalled : (pid : ℤ) → Status → Stopped
  not_signalled : (pid : ℤ) → Stopped
  -- Process 0 stands for all processes of the own group: `stop` gets SIGTERM itself, and the lock file
  -- stays as it is.
  ends_itself : LockFile → Stopped

-- What stop_daemon does when the number is known; `later` is the status after one second.
unfoldable pub stop_found : World → (later : Status) → Lookup → Stopped
stop_found w later exits = stop_exits
stop_found w later (returned pid lock_file) =
    let sent : Stopped = elim (w.kill pid) [
      | kill_succeeds ↦ if is_zero pid then ends_itself lock_file else signalled pid later
      | no_such_process ↦ not_signalled pid
      | kill_fails ↦ not_signalled pid
    ] in
    if is_neg pid then nothing_to_stop else sent

-- `later` and `later_file` are the world and the lock file after one second.
unfoldable pub stop_daemon :
    (atoi : List ℕ → ℤ) → World → (later : World) → (later_file : LockFile) → LockFile → Stopped
stop_daemon atoi w later later_file lock_file =
    stop_found w (show_status atoi later later_file) (get_daemon_pid atoi w lock_file)

-- How `start` goes on: it ends with an error, reports a daemon that is running, or the daemon has
-- created the lock file.
pub data Started : Type 0 where
  start_exits : Started
  already_running : (pid : ℤ) → LockFile → Started
  daemon_started : LockFile → Started

-- `open` with O_CREAT and O_EXCL, and the `write` of the own number.
unfoldable pub create_lock_file : (own_pid : List ℕ) → LockFile → Started
create_lock_file own_pid missing = daemon_started (content (own_pid ++ 10 ∷ []))
create_lock_file own_pid unreadable = start_exits
create_lock_file own_pid (content text) = start_exits

unfoldable pub start_found : (own_pid : List ℕ) → Lookup → Started
start_found own_pid exits = start_exits
start_found own_pid (returned old_pid lock_file) =
    if is_pos old_pid then already_running old_pid lock_file else create_lock_file own_pid lock_file

unfoldable pub start_daemon : (atoi : List ℕ → ℤ) → World → (own_pid : List ℕ) → LockFile → Started
start_daemon atoi w own_pid lock_file = start_found own_pid (get_daemon_pid atoi w lock_file)

-- exit_handler
unfoldable pub exit_handler : World → LockFile → LockFile
exit_handler w lock_file = w.unlink lock_file

-- signal_handler: whether the process ends, and the lock file. 10 and 12 are SIGUSR1 and SIGUSR2.
unfoldable pub signal_handler : World → (signo : ℕ) → LockFile → Bool × LockFile
signal_handler w signo lock_file =
    if (signo == 10) || (signo == 12) then (false, lock_file) else (true, exit_handler w lock_file)

-- `argv0_without_path`: what follows the last '/'; `tail` is what follows the last one so far.
unfoldable pub without_path : (tail name : List ℕ) → List ℕ
without_path tail [] = tail
without_path tail (c ∷ name) = if c == 47 then without_path name name else without_path tail name

-- "/var/run/", "/var/tmp/" and ".pid"
abbrev var_run : List ℕ
var_run = 47 ∷ 118 ∷ 97 ∷ 114 ∷ 47 ∷ 114 ∷ 117 ∷ 110 ∷ 47 ∷ []

abbrev var_tmp : List ℕ
var_tmp = 47 ∷ 118 ∷ 97 ∷ 114 ∷ 47 ∷ 116 ∷ 109 ∷ 112 ∷ 47 ∷ []

abbrev dot_pid : List ℕ
dot_pid = 46 ∷ 112 ∷ 105 ∷ 100 ∷ []

-- The name of the lock file, in a buffer of 300 bytes.
unfoldable pub lock_file_name : (is_root : Bool) → (argv0 : List ℕ) → Run (List ℕ)
lock_file_name is_root argv0 =
    let directory = if is_root then var_run else var_tmp in
    let name = directory ++ (without_path argv0 argv0 ++ dot_pid) in
    if ltb (length name) 300 then ok name else fault

-- What `socket` and `bind` give for an address: no socket, a socket that is bound, or one that is not.
pub data Attempt : Type 0 where
  no_socket : Attempt
  bound unbound : (server_socket : ℕ) → Attempt

-- The loop over the addresses: the sockets for which a thread is started, and those that are closed.
unfoldable pub listen_all : List Attempt → List ℕ × List ℕ
listen_all [] = ([], [])
listen_all (no_socket ∷ attempts) = listen_all attempts
listen_all (bound server_socket ∷ attempts) =
    let rest = listen_all attempts in (server_socket ∷ rest.0, rest.1)
listen_all (unbound server_socket ∷ attempts) =
    let rest = listen_all attempts in (rest.0, server_socket ∷ rest.1)
