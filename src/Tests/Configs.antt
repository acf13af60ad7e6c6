-- ===== src/Tests/Configs.antt =====
-- The theorems on the configuration of server and client at a command line and a file.
use teavpn.Common.{
  ℕ, ◌+◌, ◌-◌, ◌*◌, ◌%◌, ◌^◌, ◌≡◌, arith, refl, true, ◌&&◌, ◌↔◌, leb, if◌then◌else◌, some, none,
  List, [], ◌∷◌,
}
use teavpn.Packet.{cstr}
use teavpn.User.{Entry, same_text}
use teavpn.Config.{bytes, pos, Libc, Opt, Opened, opened, runs, crashes, parse_options, sock_udp}
use teavpn.Config.Files.{good_file}
use teavpn.Config.Loops.{all, last, one_of, entries_at}
use teavpn.Config.Server.{run_server, parse_option}
use teavpn.Config.SrvCfg.{SrvCfg, d_srv_cfg_file}
use teavpn.Config.Server.Keys.{known_line, good_option}
use teavpn.Config.Server.Origin.{path_of, type_line, type_opt}
use teavpn.Config.Server.Texts.{Fits}
use teavpn.Config.Server.Verdict.{run_server_iff, run_server-Fits, thread_num-run_server}
use teavpn.Config.Client.{run_client}
use teavpn.Config.CliCfg.{CliCfg}
use teavpn.Config.Client.Verdict.{Startable, run_client_iff, auth-run_client}

-- A number in decimal digits.
decimal : ℕ → List ℕ → ℕ
decimal n [] = n
decimal n (c ∷ s) = decimal (n * 10 + (c - 48)) s

abbrev libc : Libc
libc = record {
  atoi = λ v. pos (decimal 0 v % 2 ^ 31);
  strtoul = λ v. decimal 0 v;
  tolower = λ c. if leb 65 c && leb c 90 then c + 32 else c;
}

abbrev option : ℕ → List ℕ → Opt
option c v = record { opt = c; optarg = some v }

abbrev line : List ℕ → List ℕ → List ℕ → Entry
line s n v = record { section = s; name = n; val = v }

-- `-t 4 -m 9000 -s UDP`
abbrev options : List Opt
options = option b't' (bytes "4") ∷ option b'm' (bytes "9000") ∷ option b's' (bytes "UDP") ∷ []

-- Every file sets the number of threads to 256 and names the socket's type.
abbrev fopen : List ℕ → Opened
fopen path = opened (record {
  entries =
      line (bytes "sys") (bytes "thread") (bytes "256")
      ∷ line (bytes "socket") (bytes "sock_type") (bytes "Udp")
      ∷ [];
  parsed = true;
})

run_server_iff_example : ((cfg : SrvCfg) × (run_server libc fopen options ≡ runs cfg)) ↔ (
    (all (good_option libc) options ≡ true)
    × (good_file d_srv_cfg_file (known_line libc) fopen (path_of options) ≡ true)
    × (last
          (type_line libc)
          (entries_at fopen (path_of options))
          (last (type_opt libc) options sock_udp)
        ≡ sock_udp))
run_server_iff_example = run_server_iff libc fopen options

started : (cfg : SrvCfg) × (run_server libc fopen options ≡ runs cfg)
unfolding all last one_of same_text cstr decimal
started = run_server_iff_example.1 (refl, refl, refl)

run_server-Fits_example : Fits started.0
run_server-Fits_example = run_server-Fits libc fopen options (λ v. omega arith) started.0 started.1

-- The file's 256 is cut to 8 bits, and passes over the command line's 4.
thread_num-run_server_example : started.0.sys.thread_num ≡ 0
unfolding last same_text cstr decimal
thread_num-run_server_example = thread_num-run_server libc fopen options started.0 started.1

-- `--encrypt`
encrypt_crashes : run_server libc fopen (record { opt = b'E'; optarg = none } ∷ []) ≡ crashes
unfolding run_server parse_options parse_option
encrypt_crashes = refl

-- `-u bob -p secret`
abbrev user_options : List Opt
user_options = option b'u' (bytes "bob") ∷ option b'p' (bytes "secret") ∷ []

-- Every file has the user "ann".
abbrev user_file : List ℕ → Opened
user_file path =
    opened (record {
      entries = line (bytes "auth") (bytes "username") (bytes "ann") ∷ [];
      parsed = true;
    })

run_client_iff_example :
    ((cfg : CliCfg) × (run_client libc user_file user_options ≡ runs cfg))
    ↔ Startable libc user_file user_options
run_client_iff_example = run_client_iff libc user_file user_options

client_started : (cfg : CliCfg) × (run_client libc user_file user_options ≡ runs cfg)
unfolding all last one_of same_text cstr
client_started =
    run_client_iff_example.1
      (record { options = refl; file = refl; named = refl; secret = refl; udp = refl })

auth-run_client_example :
    (cstr client_started.0.auth.username ≡ bytes "ann")
    × (cstr client_started.0.auth.password ≡ bytes "secret")
unfolding last same_text cstr
auth-run_client_example =
    auth-run_client libc user_file user_options client_started.0 client_started.1
