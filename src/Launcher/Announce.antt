-- ===== src/Launcher/Announce.antt =====
-- The port on its way from the master to the slave: the line "Listening on port P" that `main` prints
-- with --local, the launcher that reads it, and the option -s of the slave (src/jpgsync.cpp).
use jpgsync.Common.{
  ℕ, zero, suc, ◌+◌, ◌<◌, ◌≡◌, refl, ap, ◌∙◌, true, false, ◌&&◌, not, List, [], ◌∷◌, ◌++◌,
  append_assoc, none, some, arith, chars, All, length, length-append, take-append_left, ltb, ◌==◌,
  if◌then◌else◌,
}
use jpgsync.Cli.{Root, is_empty, is_digit, extract_from, extract_port}
use jpgsync.Cli.Port.{IsDigit, extract_port_lem}
use jpgsync.Cli.Roots.{Free, rfind-append, drop_past}
use jpgsync.Cli.Defaults.{parse_master, ◌>>=◌}
use jpgsync.Launcher.Capture.{fgets, words_from, find_port, capture_port}
use jpgsync.Launcher.Words.{Word, words_from-Word}
use jpgsync.Launcher.Decimal.{decimal, value-decimal, digits-decimal, length-decimal, decimal_some}

-- What the master prints.
unfoldable pub listening_line : ℕ → List ℕ
listening_line port = chars "Listening on port " ++ (decimal port ++ 10 ∷ [])

-- The value of -s that the launcher gives to the slave.
unfoldable pub slave_arg : Root → List ℕ → List ℕ
slave_arg master_root master_port =
    (if is_empty master_root.hostname then chars "localhost" else master_root.hostname)
    ++ b':' ∷ master_port

fgets-append :
    (n : ℕ) (xs more : List ℕ)
    → Free 10 xs
    → length xs < n
    → fgets n (xs ++ 10 ∷ more) ≡ xs ++ 10 ∷ []
unfolding fgets
fgets-append zero xs more f lt = absurd (omega arith)
fgets-append (suc n) [] more f lt = refl
fgets-append (suc n) (x ∷ xs) more (fx, fs) lt = rw (fx, fgets-append n xs more fs (omega arith))

digits-Free : (c : ℕ) (xs : List ℕ) → is_digit c ≡ false → All IsDigit xs → Free c xs
digits-Free c [] d h = tt
digits-Free c (x ∷ xs) d (dx, ds) = (ground arith, digits-Free c xs d ds)

digits-Word : (xs : List ℕ) → All IsDigit xs → Word xs
digits-Word [] h = tt
digits-Word (x ∷ xs) (dx, ds) = (ground arith, digits-Word xs ds)

extract_port-decimal : (port : ℕ) → port < 65536 → extract_port (decimal port) ≡ some port
extract_port-decimal port lt =
    (extract_port_lem (decimal port) port).1 (digits-decimal port, value-decimal port, lt)

pub capture-listening_line :
    (port : ℕ) (more : List ℕ)
    → port < 65536
    → capture_port (listening_line port ++ more) ≡ some (decimal port)
unfolding capture_port listening_line fgets words_from find_port extract_port extract_from
capture-listening_line port more lt =
    let digits = digits-decimal port in
    let line =
      fgets-append 107 (decimal port) more (digits-Free 10 (decimal port) refl digits)
        (omega (arith, length-decimal port (omega arith))) in
    let words =
      words_from-Word (decimal port) 10 [] (digits-Word (decimal port) digits) (decimal_some port)
        refl in
    ap (λ xs. some (find_port [] (words_from [] (chars "Listening on port " ++ xs))))
      (ap (fgets 107) (append_assoc (decimal port) (10 ∷ []) more) ∙ line)
    ∙ ap (λ ws. some (find_port [] (chars "Listening" ∷ chars "on" ∷ chars "port" ∷ ws))) words
    ∙ rw (find_port, extract_port-decimal port lt)

-- The address that the slave is told.
abbrev pub master_address : Root → List ℕ
master_address root = if is_empty root.hostname then chars "localhost" else root.hostname

or_localhost_some : (host : List ℕ) → 0 < length (if is_empty host then chars "localhost" else host)
or_localhost_some [] = omega arith
or_localhost_some (c ∷ cs) = omega arith

-- The slave reads as the port what the launcher has captured.
pub slave_arg_lem :
    (root : Root) (captured : List ℕ)
    → Free b':' captured
    → 0 < length captured
    → parse_master (slave_arg root captured)
      ≡ (extract_port captured >>= (λ port. some (master_address root, port)))
unfolding parse_master slave_arg
slave_arg_lem root captured f lt =
    let host = master_address root in
    let found = rfind-append b':' host captured f in
    let some_host = or_localhost_some root.hostname in
    let guard : (ltb 0 (length host) && not (length host + 1 == length (host ++ b':' ∷ captured)))
        ≡ true =
      ground (arith, length-append host (b':' ∷ captured)) in
    rw (
      found,
      guard,
      drop_past b':' host captured,
      take-append_left (length host) host (b':' ∷ captured) refl,
    )

pub parse_master-slave_arg :
    (root : Root) (port : ℕ)
    → port < 65536
    → parse_master (slave_arg root (decimal port)) ≡ some (master_address root, port)
parse_master-slave_arg root port lt =
    slave_arg_lem root (decimal port) (digits-Free b':' (decimal port) refl (digits-decimal port))
      (decimal_some port)
    ∙ rw (extract_port-decimal port lt)

-- The last word of "Listening on port " is no port.
pub parse_master-port : (root : Root) → parse_master (slave_arg root (chars "port")) ≡ none
unfolding extract_port extract_from
parse_master-port root =
    slave_arg_lem root (chars "port") (refl, (refl, (refl, (refl, tt)))) (omega arith)
