-- ===== src/Launcher/Unheard.antt =====
-- The launcher against the master that it starts: what `main` prints with --local decides what it does
-- without (src/jpgsync.cpp).
use jpgsync.Common.{
  ℕ, ◌<◌, ◌≡◌, ◌≢◌, refl, ◌∷◌, ◌++◌, length, ◌∙◌, sym, false, List, [], append-nil, Option, none,
  some, chars,
}
use jpgsync.Host.{Host}
use jpgsync.Protocol.{Outcome, returned, threw, fatal, stuck}
use jpgsync.Protocol.Ending.{Ends}
use jpgsync.Master.{Master, master, listen_all}
use jpgsync.Master.Ending.{listen_all-Ends}
use jpgsync.Dir.{DirEntry, open_dir}
use jpgsync.Cli.{extract_port, extract_from}
use jpgsync.Cli.Defaults.{parse_master}
use jpgsync.Launcher.Capture.{capture_port, fgets, words_from, find_port}
use jpgsync.Launcher.Announce.{listening_line, slave_arg, parse_master-port}
use jpgsync.Launcher.Main.{
  Shell, Options, execute, wait, create_slave, slave_args, run_slave, run_both, launch,
}
use jpgsync.Launcher.Local.{
  Start, not_opened, not_listening, listening, unending, announce, listening_at, listened,
  run_master,
}
use jpgsync.Launcher.Status.{master_run, slave_run, launch_both, run_both-listening_line}

abbrev pub IsPort {ℓ} : {A : Type ℓ} → Start A → Type 0
IsPort (listening port a) = port < 65536
IsPort start = Unit

-- The run of a slave that is told the word "port" for the port.
abbrev pub misled_run : Shell → Options → List (List ℕ) × List ℕ × ℕ
misled_run shell o =
    execute shell (slave_args o (chars "port")) (create_slave o) (master_run shell o).0

-- The commands and the exit status for how far the master gets.
abbrev pub launched {ℓ} : {A : Type ℓ} → Shell → Options → Start A → List (List ℕ) × Option ℕ
launched shell o (listening port a) = (
  (slave_run shell o port).0,
  some (wait (master_run shell o).2 (wait (slave_run shell o port).2 0)),
)
launched shell o not_listening =
    ((misled_run shell o).0, some (wait (master_run shell o).2 (wait (misled_run shell o).2 0)))
launched shell o other = ((master_run shell o).0, none)

run_both_unheard :
    (shell : Shell) (o : Options)
    → (master_run shell o).1 ≡ []
    → run_both shell o ≡ ((master_run shell o).0, none)
unfolding run_both run_slave master_run capture_port
run_both_unheard shell o e = rw e refl

capture_port-port : capture_port (chars "Listening on port ") ≡ some (chars "port")
unfolding capture_port fgets words_from find_port extract_port extract_from
capture_port-port = refl

run_both_misled :
    (shell : Shell) (o : Options)
    → (master_run shell o).1 ≡ chars "Listening on port "
    → run_both shell o ≡ launched {A = ℕ} shell o not_listening
unfolding run_both run_slave master_run
run_both_misled shell o e = rw (e, capture_port-port) refl

run_both-announce {ℓ} :
    {A : Type ℓ} (shell : Shell) (o : Options) (start : Start A) (sync : A → Outcome ℕ)
    → IsPort start
    → start ≢ unending
    → (master_run shell o).1 ≡ (announce start sync).0
    → run_both shell o ≡ launched shell o start
unfolding announce
run_both-announce shell o (listening port a) sync lt ends e =
    run_both-listening_line shell o port [] lt (e ∙ sym (append-nil (listening_line port)))
run_both-announce shell o not_opened sync lt ends e = run_both_unheard shell o e
run_both-announce shell o not_listening sync lt ends e = run_both_misled shell o e
run_both-announce shell o unending sync lt ends e = absurd (ends refl)

module _ {N : Type 0} (host : Host) (kernel : jpgsync.Master.Kernel N) where
  listened_ends :
      (root : List ℕ) (listing : Option (List DirEntry)) (net : N)
      → listened host kernel root listing net ≢ unending
  unfolding listened listening_at open_dir
  listened_ends root none net = λ e. cc
  listened_ends root (some entries) net =
      go (listen_all host kernel master net) (listen_all-Ends host kernel master net)
    where
      go :
          (o : Outcome (ℕ × Master × N))
          → Ends (λ r. Unit {0}) o
          → listening_at
              (record {
                path = root ++ b'/' ∷ [];
                prefix_len = length (root ++ b'/' ∷ []);
                ahead = entries;
              })
              o
            ≢ unending
      go (returned (port, m, net')) h = λ e. cc
      go threw h = λ e. cc
      go fatal h = λ e. cc
      go stuck h = absurd h

  -- Neither -s nor -m is given, the output of the master's command is what the master prints, and
  -- the port that it listens on, if it gets so far, is below 2 ^ 16. If it listens, the slave is started with that port, and both are waited for. If opening its
  -- directory fails, the slave is never started, and the launcher ends by an exception. If a call of
  -- `Listen` fails, the word "port" of the text that the master has begun is taken for the port: the
  -- slave is started with an address that it cannot read, and both are waited for.
  pub launch-run_master :
      (shell : Shell) (o : Options) (root : List ℕ) (listing : Option (List DirEntry)) (net : N)
      (sync : jpgsync.Dir.Dir × jpgsync.Master.Master × N → Outcome ℕ)
      → o.slave ≡ false
      → o.master ≡ false
      → IsPort (listened host kernel root listing net)
      → (master_run shell o).1 ≡ (run_master host kernel root listing net sync).0
      → (launch shell o ≡ launched shell o (listened host kernel root listing net))
        × (parse_master (slave_arg o.master_root (chars "port")) ≡ none)
  unfolding run_master
  launch-run_master shell o root listing net sync s m lt e = (
    launch_both shell o s m
        ∙ run_both-announce shell o (listened host kernel root listing net) sync lt
            (listened_ends root listing net) e,
    parse_master-port o.master_root,
  )
